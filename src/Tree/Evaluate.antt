-- ===== src/Tree/Evaluate.antt =====
-- The class EvalTree of parser/cc/tree.cc: evaluation with one cached value for each term.
use dynare.Base.{
  ℕ, zero, suc, ◌+◌, ◌-◌, List, ◌∷◌, Option, none, some, Bool, true, false, Result, ok, err, Error,
  ◌||◌, if◌then◌else◌, at, ltb, length, set, replicate, take, ◌++◌,
}
use dynare.Tree.Data.{
  UnaryCode, BinaryCode, plus, minus, times, divide, power, Operation, nulary, unary, binary,
  OperationTree, num_constants,
}

-- The operations on `double`, and the test `== 0.0`.
pub record Floats (D : Type 0) : Type 0 where
  pub zero_float : D
  pub one_float : D
  pub nan_float : D
  pub two_over_sqrt_pi : D
  pub apply1 : UnaryCode → D → D
  pub apply2 : BinaryCode → D → D → D
  pub is_zero : D → Bool

pub record EvalTree (D : Type 0) : Type 0 where
  pub values : List D
  pub flags : List Bool
  pub last_operation : ℕ

-- `reset_all`: the flags of the constants stay.
unfoldable pub reset_all : {D : Type 0} → EvalTree D → EvalTree D
reset_all e = record e {
  flags = take num_constants e.flags ++ replicate (e.last_operation + 1 - num_constants) false;
}

unfoldable pub last_index : ℕ → Option ℕ → ℕ
last_index n none = n - 1
last_index n (some last) = last

unfoldable pub is_nulary : Operation → Bool
is_nulary nulary = true
is_nulary (unary code a) = false
is_nulary (binary code a b) = false

-- `values[t] = val; flags[t] = true`
unfoldable pub store : {D : Type 0} → ℕ → D → EvalTree D → EvalTree D
store t val e = record e { values = set e.values t val; flags = set e.flags t true }

-- `nulary_of_term(t).size()`
unfoldable pub nulary_count : OperationTree → ℕ → Result ℕ
nulary_count otree t = elim (at otree.nul_incidence t) [ ok s ↦ ok (length s) | err x ↦ err x ]

module _ {D : Type 0} (f : Floats D) (otree : OperationTree) where
  -- The constructor; `none` is the default -1. The arrays are made with zeros and `false`.
  unfoldable pub new_eval : Option ℕ → Result (EvalTree D)
  new_eval last =
      let n = length otree.terms in
      let last_operation = last_index n last in
      if ltb last_operation (num_constants - 1) || ltb (n - 1) last_operation
      then err Error.wrong_last
      else ok (
          reset_all (record {
            values =
                f.zero_float
                ∷ f.one_float
                ∷ f.nan_float
                ∷ f.two_over_sqrt_pi
                ∷ replicate (last_operation + 1 - num_constants) f.zero_float;
            flags =
                true ∷ true ∷ true ∷ true ∷ replicate (last_operation + 1 - num_constants) false;
            last_operation = last_operation;
          }))

  -- `set_nulary`; the last test reads `terms[t]`.
  unfoldable pub set_nulary : ℕ → D → EvalTree D → Result (EvalTree D)
  set_nulary t val e =
      if ltb e.last_operation t then err Error.wrong_tree_index else elim (at otree.terms t) [
        | ok op ↦
            if ltb t num_constants || (if is_nulary op then false else true)
            then err Error.not_assignable
            else ok (store t val e)
        | err x ↦ err x
      ]

  -- Computations that fill the arrays and may raise an exception.
  abbrev pub E : Type 0 → Type 0
  E A = EvalTree D → Result (A × EvalTree D)

  infixl 5 ◌>>=◌
  abbrev pub ◌>>=◌ : {A B : Type 0} → E A → (A → E B) → E B
  ◌>>=◌ m k e = elim (m e) [ ok (a, e') ↦ k a e' | err x ↦ err x ]

  abbrev pub pure : {A : Type 0} → A → E A
  pure a e = ok (a, e)

  -- Two operands, the first of which settles the result where it is 0.
  unfoldable pub eval_short : (ℕ → E D) → ℕ → ℕ → D → (D → D → D) → E D
  eval_short eval a b short combine = do
    r1 ← eval a
    if f.is_zero r1 then pure short else do r2 ← eval b; pure (combine r1 r2)

  -- The less complex factor comes first.
  unfoldable pub eval_times : (ℕ → E D) → ℕ → ℕ → E D
  eval_times eval a b e = elim (nulary_count otree a) [
    | ok nul1 ↦ elim (nulary_count otree b) [
      | ok nul2 ↦
          if ltb nul1 nul2
          then eval_short eval a b f.zero_float (λ r1 r2. f.apply2 times r1 r2) e
          else eval_short eval b a f.zero_float (λ r2 r1. f.apply2 times r1 r2) e
      | err x ↦ err x
    ]
    | err x ↦ err x
  ]

  -- The branches of `eval` on the operation code.
  unfoldable pub eval_operation : (ℕ → E D) → Operation → E D
  eval_operation eval nulary = λ e. err Error.not_assigned
  eval_operation eval (unary code a) = do r1 ← eval a; pure (f.apply1 code r1)
  eval_operation eval (binary plus a b) = do r1 ← eval a; r2 ← eval b; pure (f.apply2 plus r1 r2)
  eval_operation eval (binary minus a b) = do r1 ← eval a; r2 ← eval b; pure (f.apply2 minus r1 r2)
  eval_operation eval (binary times a b) = eval_times eval a b
  eval_operation eval (binary divide a b) =
      eval_short eval a b f.zero_float (λ r1 r2. f.apply2 divide r1 r2)
  eval_operation eval (binary power a b) =
      eval_short eval b a f.one_float (λ r2 r1. f.apply2 power r1 r2)

  -- The value that is cached, or the operation's, which is then cached.
  unfoldable pub eval_term : (ℕ → E D) → ℕ → Bool → E D
  eval_term eval t true e = elim (at e.values t) [ ok x ↦ ok (x, e) | err x ↦ err x ]
  eval_term eval t false e = elim (at otree.terms t) [
    | ok op ↦ (eval_operation eval op >>= λ res e'. ok (res, store t res e')) e
    | err x ↦ err x
  ]

  -- `eval`, on fuel. That a nulary term has no value is raised in `eval_operation`, which the source
  -- tests first.
  unfoldable pub eval : ℕ → ℕ → E D
  eval zero t e = err Error.no_fuel
  eval (suc fuel) t e =
      if ltb e.last_operation t
      then err Error.wrong_tree_index
      else elim (at e.flags t) [ ok flag ↦ eval_term (λ i. eval fuel i) t flag e | err x ↦ err x ]
