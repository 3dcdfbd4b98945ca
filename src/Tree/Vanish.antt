-- ===== src/Tree/Vanish.antt =====
-- The derivative of a term of parser/cc/tree.cc by a nulary term that does not occur in it is zero.
use dynare.Base.{ℕ, ◌≡◌, refl, sym, ◌∙◌, Option, some, List, Bool-cases, inl, inr, ◌==◌, ==_iff}
use mathlib.Core.Option.{some-injective}
use dynare.Tree.{
  UnaryCode, BinaryCode, uminus, log, exp, sin, cos, tan, sqrt, erf, erfc, plus, minus, times,
  divide, power, Operation,
}
use dynare.Tree.Meaning.{Arithmetic}
use dynare.Tree.Incidence.{Occurs, itself, under, left, right}
use dynare.Tree.Dual.{
  op1, op2, op1-some, op2-some, gauss_value, rule1, rule2, Dual, leaf, step1, step2,
}

module _ {D : Type 0} (a : Arithmetic D) where
  -- A missing value, or zero.
  abbrev pub Vanishes : Option D → Type 0
  Vanishes o = (y : D) → o ≡ some y → y ≡ a.zero_value

  uminus-Vanishes : (o : Option D) → Vanishes o → Vanishes (op1 a uminus o)
  uminus-Vanishes o h y e =
      let (x, f, g) = op1-some a uminus o y e in
      let zero : x ≡ a.zero_value = h x f in some-injective _ _ (sym (rw zero at g) ∙ a.uminus_zero)

  times_left-Vanishes : (o p : Option D) → Vanishes o → Vanishes (op2 a times o p)
  times_left-Vanishes o p h z e =
      let (x, y, f, f', g) = op2-some a times o p z e in
      let zero : x ≡ a.zero_value = h x f in
      some-injective _ _ (sym (rw zero at g) ∙ a.zero-times y)

  times_right-Vanishes : (o p : Option D) → Vanishes p → Vanishes (op2 a times o p)
  times_right-Vanishes o p h z e =
      let (x, y, f, f', g) = op2-some a times o p z e in
      let zero : y ≡ a.zero_value = h y f' in
      some-injective _ _ (sym (rw zero at g) ∙ a.times_comm x a.zero_value ∙ a.zero-times x)

  divide-Vanishes : (o p : Option D) → Vanishes o → Vanishes (op2 a divide o p)
  divide-Vanishes o p h z e =
      let (x, y, f, f', g) = op2-some a divide o p z e in
      let zero : x ≡ a.zero_value = h x f in a.zero-divide y z (rw zero at g)

  plus-Vanishes : (o p : Option D) → Vanishes o → Vanishes p → Vanishes (op2 a plus o p)
  plus-Vanishes o p h h' z e =
      let (x, y, f, f', g) = op2-some a plus o p z e in
      let zero : x ≡ a.zero_value = h x f in
      let zero' : y ≡ a.zero_value = h' y f' in
      some-injective _ _ (sym (rw (zero, zero') at g) ∙ a.zero-plus a.zero_value)

  minus-Vanishes : (o p : Option D) → Vanishes o → Vanishes p → Vanishes (op2 a minus o p)
  minus-Vanishes o p h h' z e =
      let (x, y, f, f', g) = op2-some a minus o p z e in
      let zero : x ≡ a.zero_value = h x f in
      let zero' : y ≡ a.zero_value = h' y f' in
      some-injective _ _ (sym (rw (zero, zero') at g) ∙ a.minus-zero a.zero_value)

  rule1-Vanishes :
      (code : UnaryCode) (z x dx : Option D) → Vanishes dx → Vanishes (rule1 a code z x dx)
  rule1-Vanishes uminus z x dx h = uminus-Vanishes dx h
  rule1-Vanishes log z x dx h = divide-Vanishes dx _ h
  rule1-Vanishes exp z x dx h = times_right-Vanishes _ dx h
  rule1-Vanishes sin z x dx h = times_right-Vanishes _ dx h
  rule1-Vanishes cos z x dx h = uminus-Vanishes _ (times_right-Vanishes _ dx h)
  rule1-Vanishes tan z x dx h = divide-Vanishes dx _ h
  rule1-Vanishes sqrt z x dx h = divide-Vanishes dx _ h
  rule1-Vanishes erf z x dx h =
      times_right-Vanishes (some a.two_over_pi_value) _
        (times_right-Vanishes (gauss_value a x) dx h)
  rule1-Vanishes erfc z x dx h = uminus-Vanishes _ (
      times_right-Vanishes (some a.two_over_pi_value) _
        (times_right-Vanishes (gauss_value a x) dx h))

  rule2-Vanishes :
      (code : BinaryCode) (z x y dx dy : Option D)
      → Vanishes dx
      → Vanishes dy
      → Vanishes (rule2 a code z x y dx dy)
  rule2-Vanishes plus z x y dx dy h h' = plus-Vanishes dx dy h h'
  rule2-Vanishes minus z x y dx dy h h' = minus-Vanishes dx dy h h'
  rule2-Vanishes times z x y dx dy h h' =
      plus-Vanishes _ _ (times_right-Vanishes x dy h') (times_left-Vanishes dx y h)
  rule2-Vanishes divide z x y dx dy h h' =
      divide-Vanishes _ _
        (minus-Vanishes _ _ (times_left-Vanishes dx y h) (times_left-Vanishes dy x h'))
  rule2-Vanishes power z x y dx dy h h' =
      plus-Vanishes _ _ (times_left-Vanishes dy _ h') (times_left-Vanishes dx _ h)

  module _ (env : ℕ → D) where
    -- The derivative by a term that does not occur.
    pub Dual-absent :
        {terms : List Operation} {v i : ℕ} {z dz : Option D}
        → (Occurs terms v i → ⊥)
        → Dual a env terms v i z dz
        → Vanishes dz
    Dual-absent {v} {i} fresh (leaf e f g) y q = some-injective _ _ (
        sym q ∙ sym g ∙ elim (Bool-cases (i == v)) [
          | inl h ↦ absurd (fresh (itself e ((==_iff i v).0 h)))
          | inr h ↦ rw h refl
        ])
    Dual-absent fresh (step1 {z} {x} {dx} code e d f g) y q =
        rule1-Vanishes code z x dx (Dual-absent (λ o. fresh (under code e o)) d) y (g ∙ q)
    Dual-absent fresh (step2 {z} {x} {dx} {y} {dy} code e d d' f g) u q =
        rule2-Vanishes code z x y dx dy (Dual-absent (λ o. fresh (left code e o)) d)
          (Dual-absent (λ o. fresh (right code e o)) d') u (g ∙ q)
