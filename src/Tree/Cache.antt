-- ===== src/Tree/Cache.antt =====
-- The invariant of the arrays of values and flags of an EvalTree.
use dynare.Base.{
  ℕ, ◌+◌, ◌≤◌, ◌<◌, ◌≡◌, ◌≢◌, ◌↔◌, inl, inr, refl, sym, ◌∙◌, subst, some, true, ok, arith, length,
  set, get_elem?, length-set, get_elem?-set_self, get_elem?-set_ne, ◌==◌, ==_iff, Bool-cases,
}
use mathlib.Core.Option.{some-injective}
use dynare.Tree.{UnaryCode, BinaryCode, nulary, OperationTree}
use dynare.Tree.Evaluate.{E, ◌>>=◌, pure, Floats, EvalTree, store}
use dynare.Tree.Invariant.{IsTree}
use dynare.Tree.Meaning.{Arithmetic, Denotes}

-- The operations on floats are exact where the arithmetic defines a value.
pub record IsExact {D : Type 0} (a : Arithmetic D) (f : Floats D) : Type 0 where
  pub zero_exact : f.zero_float ≡ a.zero_value
  pub one_exact : f.one_float ≡ a.one_value
  pub apply1_exact : (code : UnaryCode) (x y : D) → a.apply1 code x ≡ some y → f.apply1 code x ≡ y
  pub apply2_exact :
      (code : BinaryCode) (x y z : D) → a.apply2 code x y ≡ some z → f.apply2 code x y ≡ z
  pub is_zero_iff : (x : D) → (f.is_zero x ≡ true) ↔ (x ≡ a.zero_value)

module _ {D : Type 0} (a : Arithmetic D) (f : Floats D) (exact : IsExact a f) (env : ℕ → D)
    (otree : OperationTree) (w : IsTree otree) where
  -- The term `t` has the value `x`, if it has one.
  abbrev pub IsValueOf : ℕ → D → Type 0
  IsValueOf t x = (y : D) → Denotes a env otree.terms t y → x ≡ y

  -- The arrays have a place for each term up to the last; every nulary term has a value; and a flagged
  -- value is the value of the term.
  pub record IsCache (e : EvalTree D) : Type 0 where
    pub values_size : length e.values ≡ e.last_operation + 1
    pub flags_size : length e.flags ≡ e.last_operation + 1
    pub last : e.last_operation < length otree.terms
    pub assigned :
        (t : ℕ)
        → t ≤ e.last_operation
        → get_elem? otree.terms t ≡ some nulary
        → get_elem? e.flags t ≡ some true
    pub cached :
        (t : ℕ) (x : D)
        → get_elem? e.flags t ≡ some true
        → get_elem? e.values t ≡ some x
        → IsValueOf t x

  -- A computation succeeds, keeps the invariant and the last operation, and returns a value with `P`.
  pub record Evaluates (e : EvalTree D) (m : E f otree D) (P : D → Type 0) : Type 0 where
    pub value : D
    pub state : EvalTree D
    pub returns : m e ≡ ok (value, state)
    pub invariant : IsCache state
    pub same_last : state.last_operation ≡ e.last_operation
    pub holds : P value

  module _ {P : D → Type 0} {e : EvalTree D} where
    pub Evaluates-pure : (x : D) → IsCache e → P x → Evaluates e (pure f otree x) P
    Evaluates-pure x h p = record {
      value = x;
      state = e;
      returns = refl;
      invariant = h;
      same_last = refl;
      holds = p;
    }

    -- A computation that does the same from `e`.
    pub Evaluates-at : {m n : E f otree D} → m e ≡ n e → Evaluates e n P → Evaluates e m P
    Evaluates-at q b = record {
      value = b.value;
      state = b.state;
      returns = q ∙ b.returns;
      invariant = b.invariant;
      same_last = b.same_last;
      holds = b.holds;
    }

    pub Evaluates-bind :
        {m : E f otree D} {k : D → E f otree D} {Q : D → Type 0}
        → Evaluates e m P
        → ((x : D) (e' : EvalTree D)
            → IsCache e'
            → e'.last_operation ≡ e.last_operation
            → P x
            → Evaluates e' (k x) Q)
        → Evaluates e (◌>>=◌ f otree m k) Q
    Evaluates-bind {m} {k} b c =
        let d = c b.value b.state b.invariant b.same_last b.holds in
        record {
          value = d.value;
          state = d.state;
          returns = rw (b.returns, ◌>>=◌) d.returns;
          invariant = d.invariant;
          same_last = d.same_last ∙ b.same_last;
          holds = d.holds;
        }

  pub store-IsCache :
      (t : ℕ) (x : D) (e : EvalTree D)
      → IsCache e
      → t ≤ e.last_operation
      → IsValueOf t x
      → IsCache (store t x e)
  unfolding store
  store-IsCache t x e h l v = record {
    values_size = length-set e.values t x ∙ h.values_size;
    flags_size = length-set e.flags t true ∙ h.flags_size;
    last = h.last;
    assigned = assigned;
    cached = cached;
  }
    where
      assigned :
          (i : ℕ)
          → i ≤ e.last_operation
          → get_elem? otree.terms i ≡ some nulary
          → get_elem? (set e.flags t true) i ≡ some true
      assigned i k g = elim (Bool-cases (t == i)) [
        | inl q ↦
            subst (λ j. get_elem? (set e.flags t true) j ≡ some true) ((==_iff t i).0 q)
              (get_elem?-set_self e.flags t true (omega (arith, h.flags_size)))
        | inr q ↦ get_elem?-set_ne e.flags true (λ r. ground arith) ∙ h.assigned i k g
      ]

      cached :
          (i : ℕ) (y : D)
          → get_elem? (set e.flags t true) i ≡ some true
          → get_elem? (set e.values t x) i ≡ some y
          → IsValueOf i y
      cached i y g k = elim (Bool-cases (t == i)) [
        | inl q ↦
            let r : t ≡ i = (==_iff t i).0 q in
            let k' : get_elem? (set e.values t x) t ≡ some y =
              subst (λ j. get_elem? (set e.values t x) j ≡ some y) (sym r) k in
            let same : x ≡ y =
              some-injective _ _
                (sym (get_elem?-set_self e.values t x (omega (arith, h.values_size))) ∙ k') in
            subst (λ y. IsValueOf i y) same (subst (λ j. IsValueOf j x) r v)
        | inr q ↦
            let n : t ≢ i = (λ r. ground arith) in
            h.cached i y (sym (get_elem?-set_ne e.flags true n) ∙ g)
              (sym (get_elem?-set_ne e.values x n) ∙ k)
      ]
