-- ===== src/Tree/Nularify.antt =====
-- Turning a term into a nulary one: `nularify` and `update_nul_incidence_after_nularify` of
-- parser/cc/tree.cc.
use dynare.Base.{
  ℕ, zero, suc, ◌+◌, ◌-◌, List, [], ◌∷◌, Option, none, some, Result, ok, err, Error, ◌>>=◌, length,
  at, set, get_or, ltb, leb, ◌==◌, ◌||◌, if◌then◌else◌,
}
use dynare.Tree.Data.{
  Operation, nulary, unary, binary, OperationTree, Operation-discrete, has, insert, insert_all,
  num_constants,
}

-- `opmap.erase` of the entry of an operation.
unfoldable pub erase : Operation → List (Operation × ℕ) → List (Operation × ℕ)
erase o [] = []
erase o ((p, i) ∷ m) =
    let rest = erase o m in elim (Operation-discrete p o) [ yes e ↦ rest | no n ↦ (p, i) ∷ rest ]

-- A round of the update at the term `tnode`: the incidences, and the set of updated terms.
unfoldable pub update_term :
    ℕ → ℕ → Operation → List (List ℕ) → List ℕ → Result (List (List ℕ) × List ℕ)
update_term t tnode nulary inc updated =
    if tnode == t then ok (set inc tnode (tnode ∷ []), insert tnode updated) else ok (inc, updated)
update_term t tnode (unary code op1) inc updated =
    if leb tnode op1
    then err Error.tree_disorder
    else if has op1 updated
    then ok (set inc tnode (get_or inc op1 []), insert tnode updated)
    else ok (inc, updated)
update_term t tnode (binary code op1 op2) inc updated =
    if leb tnode op1 || leb tnode op2
    then err Error.tree_disorder
    else if has op1 updated || has op2 updated
    then ok
        (set inc tnode (insert_all (get_or inc op2 []) (get_or inc op1 [])), insert tnode updated)
    else ok (inc, updated)

-- The loop, `count` rounds from the term `tnode` on.
unfoldable pub update_from :
    ℕ → ℕ → ℕ → List Operation → List (List ℕ) → List ℕ → Result (List (List ℕ))
update_from zero t tnode terms inc updated = ok inc
update_from (suc count) t tnode terms inc updated = do
  op ← at terms tnode
  (inc', updated') ← update_term t tnode op inc updated
  update_from count t (tnode + 1) terms inc' updated'

unfoldable pub update_nul_incidence_after_nularify : ℕ → OperationTree → Result OperationTree
update_nul_incidence_after_nularify t tree = do
  inc ←
      update_from (length tree.terms - num_constants) t num_constants tree.terms tree.nul_incidence
        []
  ok (record tree { nul_incidence = inc })

-- `last_nulary < t`, where `none` is -1.
unfoldable pub later_nulary : Option ℕ → ℕ → Option ℕ
later_nulary none t = some t
later_nulary (some last) t = if ltb last t then some t else some last

unfoldable pub nularify : ℕ → OperationTree → Result OperationTree
nularify t tree = do
  op ← at tree.terms t
  update_nul_incidence_after_nularify t (record tree {
    opmap = erase op tree.opmap;
    terms = set tree.terms t nulary;
    last_nulary = later_nulary tree.last_nulary t;
  })
