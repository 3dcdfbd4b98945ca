-- ===== src/Tree/Select.antt =====
-- Selection of subterms: `select_terms` and `select_terms_inv` of parser/cc/tree.cc.
use dynare.Base.{
  ℕ, zero, suc, List, [], Bool, true, false, Result, ok, err, Error, ◌>>=◌, if◌then◌else◌, ◌&&◌, at,
}
use dynare.Tree.Data.{Operation, nulary, unary, binary, OperationTree, insert}

-- The branches for a term that is not selected; `select` is the recursive call.
unfoldable pub select_operands :
    (ℕ → List ℕ → Result (List ℕ)) → Operation → List ℕ → Result (List ℕ)
select_operands select nulary subterms = ok subterms
select_operands select (unary code a) subterms = select a subterms
select_operands select (binary code a b) subterms = do s ← select a subterms; select b s

-- `select_terms` into a set, on fuel.
unfoldable pub select_into : ℕ → OperationTree → (ℕ → Bool) → ℕ → List ℕ → Result (List ℕ)
select_into zero tree sel t subterms = err Error.no_fuel
select_into (suc fuel) tree sel t subterms = do
  op ← at tree.terms t
  elim (sel t) [
    | true ↦ ok (insert t subterms)
    | false ↦ select_operands (λ i s. select_into fuel tree sel i s) op subterms
  ]

unfoldable pub select_terms : ℕ → OperationTree → (ℕ → Bool) → ℕ → Result (List ℕ)
select_terms fuel tree sel t = select_into fuel tree sel t []

-- Whether the operands are selected, and the set behind them; of a nulary term they are.
unfoldable pub select_inv_operands :
    (ℕ → List ℕ → Result (Bool × List ℕ)) → Operation → List ℕ → Result (Bool × List ℕ)
select_inv_operands select nulary subterms = ok (true, subterms)
select_inv_operands select (unary code a) subterms = select a subterms
select_inv_operands select (binary code a b) subterms = do
  (a1, s1) ← select a subterms
  (a2, s2) ← select b s1
  ok (a1 && a2, s2)

-- `select_terms_inv` into a set: whether the term was selected, and the set.
unfoldable pub select_inv_into :
    ℕ → OperationTree → (ℕ → Bool) → ℕ → List ℕ → Result (Bool × List ℕ)
select_inv_into zero tree sel t subterms = err Error.no_fuel
select_inv_into (suc fuel) tree sel t subterms = do
  op ← at tree.terms t
  (all, s) ← select_inv_operands (λ i r. select_inv_into fuel tree sel i r) op subterms
  if all && sel t then ok (true, insert t s) else ok (false, s)

unfoldable pub select_terms_inv : ℕ → OperationTree → (ℕ → Bool) → ℕ → Result (List ℕ)
select_terms_inv fuel tree sel t = do (all, s) ← select_inv_into fuel tree sel t []; ok s
