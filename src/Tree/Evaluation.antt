-- ===== src/Tree/Evaluation.antt =====
-- What `eval` computes.
use dynare.Base.{
  ℕ, zero, suc, ◌≤◌, ◌<◌, ◌≡◌, ◌⊎◌, inl, inr, refl, sym, ◌∙◌, subst, some, Bool, true, false, ok,
  arith, length, at-of, get_elem?, get_elem?_of_lt, ltb, if◌then◌else◌, Bool-cases,
}
use mathlib.Core.Option.{some-injective}
use dynare.Tree.{
  UnaryCode, BinaryCode, plus, minus, times, divide, power, Operation, nulary, unary, binary,
  OperationTree,
}
use dynare.Tree.Evaluate.{
  E, ◌>>=◌, pure, Floats, EvalTree, store, nulary_count, eval_short, eval_times, eval_operation,
  eval_term, eval,
}
use dynare.Tree.Invariant.{IsTree, OperandsBelow}
use dynare.Tree.Meaning.{Arithmetic}
use dynare.Tree.Operands.{operand_value, operand_values}
use dynare.Tree.Cache.{
  IsExact, IsValueOf, IsCache, Evaluates, Evaluates-pure, Evaluates-at, Evaluates-bind,
  store-IsCache,
}

module _ {D : Type 0} (a : Arithmetic D) (f : Floats D) (exact : IsExact a f) (env : ℕ → D)
    (otree : OperationTree) (w : IsTree otree) where
  abbrev V : ℕ → D → Type 0
  V = IsValueOf a f exact env otree w

  abbrev C : EvalTree D → Type 0
  C = IsCache a f exact env otree w

  abbrev Ev : EvalTree D → E f otree D → (D → Type 0) → Type 0
  Ev = Evaluates a f exact env otree w

  abbrev return : {P : D → Type 0} {e : EvalTree D} (x : D) → C e → P x → Ev e (pure f otree x) P
  return x h p = Evaluates-pure a f exact env otree w x h p

  abbrev chain :
      {P : D → Type 0} {e : EvalTree D} {m : E f otree D} {k : D → E f otree D} {Q : D → Type 0}
      → Ev e m P
      → ((x : D) (e' : EvalTree D)
          → C e'
          → e'.last_operation ≡ e.last_operation
          → P x
          → Ev e' (k x) Q)
      → Ev e (◌>>=◌ f otree m k) Q
  chain b c = Evaluates-bind a f exact env otree w b c

  module _ (rec : ℕ → E f otree D) (t : ℕ)
      (sound : (e : EvalTree D) → C e → (j : ℕ) → j < t → t ≤ e.last_operation → Ev e (rec j) (V j))
      (e : EvalTree D) (h : C e) (l : t ≤ e.last_operation) where
    short_sound :
        (i j : ℕ) (short : D) (combine : D → D → D)
        → i < t
        → j < t
        → ((x : D) → V i x → x ≡ a.zero_value → V t short)
        → ((x y : D) → V i x → V j y → V t (combine x y))
        → Ev e (eval_short f otree rec i j short combine) (V t)
    unfolding eval_short
    short_sound i j short combine p q z c =
        chain (sound e h i p l) λ x e' h' s v. go x e' h' s v (Bool-cases (f.is_zero x))
      where
        go :
            (x : D) (e' : EvalTree D)
            → C e'
            → e'.last_operation ≡ e.last_operation
            → V i x
            → (f.is_zero x ≡ true) ⊎ (f.is_zero x ≡ false)
            → Ev e'
                (if f.is_zero x
                  then pure f otree short
                  else ◌>>=◌ f otree (rec j) (λ y. pure f otree (combine x y)))
                (V t)
        go x e' h' s v (inl b) = rw b (return short h' (z x v ((exact.is_zero_iff x).0 b)))
        go x e' h' s v (inr b) = rw b (
            chain (sound e' h' j q (omega arith))
              λ y e'' h'' s' v'. return (combine x y) h'' (c x y v v'))

    unary_sound :
        (code : UnaryCode) (i : ℕ)
        → get_elem? otree.terms t ≡ some (unary code i)
        → i < t
        → Ev e (eval_operation f otree rec (unary code i)) (V t)
    unfolding eval_operation
    unary_sound code i g p = chain (sound e h i p l) λ x e' h' s v.
        return (f.apply1 code x) h' λ y d.
          let (x', d', q) = operand_value a env otree w code g d in
          exact.apply1_exact code x y (rw (v x' d') q)

    -- The value of an operation at values of the operands, and where one is 0.
    module _ (code : BinaryCode) (i j : ℕ)
        (g : get_elem? otree.terms t ≡ some (binary code i j)) where
      both : (x y : D) → V i x → V j y → V t (f.apply2 code x y)
      both x y v v' z d =
          let (x', y', d1, d2, q) = operand_values a env otree w code g d in
          exact.apply2_exact code x y z (rw (v x' d1, v' y' d2) q)

      left_zero :
          ((y z : D) → a.apply2 code a.zero_value y ≡ some z → z ≡ a.zero_value)
          → (x : D) → V i x
          → x ≡ a.zero_value
          → V t f.zero_float
      left_zero law x v e z d =
          let (x', y', d1, d2, q) = operand_values a env otree w code g d in
          exact.zero_exact
          ∙ sym (law y' z (subst (λ x. a.apply2 code x y' ≡ some z) (sym (v x' d1) ∙ e) q))

      right_zero :
          (r k : D)
          → r ≡ k
          → ((x z : D) → a.apply2 code x a.zero_value ≡ some z → z ≡ k)
          → (y : D) → V j y
          → y ≡ a.zero_value
          → V t r
      right_zero r k s law y v e z d =
          let (x', y', d1, d2, q) = operand_values a env otree w code g d in
          s ∙ sym (law x' z (subst (λ y. a.apply2 code x' y ≡ some z) (sym (v y' d2) ∙ e) q))

    count_of : (i : ℕ) → i < t → (n : ℕ) × (nulary_count otree i ≡ ok n)
    unfolding nulary_count
    count_of i p =
        let (s, k) =
          get_elem?_of_lt otree.nul_incidence i (omega (arith, w.incidence_size, h.last)) in
        (length s, rw (at-of otree.nul_incidence i s k, nulary_count))

    zero-times : (y z : D) → a.apply2 times a.zero_value y ≡ some z → z ≡ a.zero_value
    zero-times y z q = some-injective _ _ (sym q ∙ a.zero-times y)

    times-zero : (x z : D) → a.apply2 times x a.zero_value ≡ some z → z ≡ a.zero_value
    times-zero x z q = zero-times x z (a.times_comm a.zero_value x ∙ q)

    times_sound :
        (i j : ℕ)
        → get_elem? otree.terms t ≡ some (binary times i j)
        → i < t
        → j < t
        → Ev e (eval_times f otree rec i j) (V t)
    unfolding eval_times
    times_sound i j g p q =
        let (n, c) = count_of i p in
        let (m, c') = count_of j q in go n m c c' (Bool-cases (ltb n m))
      where
        go :
            (n m : ℕ)
            → nulary_count otree i ≡ ok n
            → nulary_count otree j ≡ ok m
            → (ltb n m ≡ true) ⊎ (ltb n m ≡ false)
            → Ev e (eval_times f otree rec i j) (V t)
        go n m c c' (inl b) =
            let same : eval_times f otree rec i j e
                ≡ eval_short f otree rec i j f.zero_float (λ x y. f.apply2 times x y) e =
              rw (c, eval_times) (rw (c', b) refl) in
            Evaluates-at a f exact env otree w same (
              short_sound i j f.zero_float (λ x y. f.apply2 times x y) p q
                (left_zero times i j g zero-times) (both times i j g))
        go n m c c' (inr b) =
            let same : eval_times f otree rec i j e
                ≡ eval_short f otree rec j i f.zero_float (λ y x. f.apply2 times x y) e =
              rw (c, eval_times) (rw (c', b) refl) in
            Evaluates-at a f exact env otree w same (
              short_sound j i f.zero_float (λ y x. f.apply2 times x y) q p
                (right_zero times i j g f.zero_float a.zero_value exact.zero_exact times-zero)
                (λ y x v v'. both times i j g x y v' v))

    binary_sound :
        (code : BinaryCode) (i j : ℕ)
        → get_elem? otree.terms t ≡ some (binary code i j)
        → i < t
        → j < t
        → Ev e (eval_operation f otree rec (binary code i j)) (V t)
    unfolding eval_operation
    binary_sound plus i j g p q = chain (sound e h i p l) λ x e' h' s v.
        chain (sound e' h' j q (omega (arith, s)))
          λ y e'' h'' s' v'. return (f.apply2 plus x y) h'' (both plus i j g x y v v')
    binary_sound minus i j g p q = chain (sound e h i p l) λ x e' h' s v.
        chain (sound e' h' j q (omega (arith, s)))
          λ y e'' h'' s' v'. return (f.apply2 minus x y) h'' (both minus i j g x y v v')
    binary_sound times i j g p q = times_sound i j g p q
    binary_sound divide i j g p q =
        short_sound i j f.zero_float (λ x y. f.apply2 divide x y) p q
          (left_zero divide i j g a.zero-divide) (both divide i j g)
    binary_sound power i j g p q =
        short_sound j i f.one_float (λ y x. f.apply2 power x y) q p
          (right_zero power i j g f.one_float a.one_value exact.one_exact a.power-zero)
          (λ y x v v'. both power i j g x y v' v)

    operation_sound :
        (op : Operation)
        → get_elem? otree.terms t ≡ some op
        → OperandsBelow t op
        → get_elem? e.flags t ≡ some false
        → Ev e (eval_operation f otree rec op) (V t)
    operation_sound nulary g b k = cc (h.assigned t l g)
    operation_sound (unary code i) g b k = unary_sound code i g b
    operation_sound (binary code i j) g b k = binary_sound code i j g b.0 b.1

    term_sound :
        (flag : Bool) → get_elem? e.flags t ≡ some flag → Ev e (eval_term f otree rec t flag) (V t)
    unfolding eval_term
    term_sound true k =
        let (x, g) = get_elem?_of_lt e.values t (omega (arith, h.values_size)) in
        Evaluates-at a f exact env otree w (rw (at-of e.values t x g, eval_term))
          (return x h (h.cached t x k g))
    term_sound false k =
        let (op, g) = get_elem?_of_lt otree.terms t (omega (arith, h.last)) in
        let store_result : D → E f otree D = λ x e'. ok (x, store t x e') in
        Evaluates-at a f exact env otree w
          {n = ◌>>=◌ f otree (eval_operation f otree rec op) store_result}
          (rw (at-of otree.terms t op g, eval_term))
          (chain (operation_sound op g (w.ordered t op g) k) λ x e' h' s v. record {
            value = x;
            state = store t x e';
            returns = refl;
            invariant = store-IsCache a f exact env otree w t x e' h' (omega (arith, s)) v;
            same_last = unfold store in refl;
            holds = v;
          })

  -- In a cache where every nulary term has its value, `eval` of a term up to the last ends within t + 1
  -- nested calls and raises nothing; it leaves such a cache, and returns the value of the term wherever
  -- the term has one and the operations on floats are exact.
  pub eval-Evaluates :
      (fuel t : ℕ) (e : EvalTree D)
      → IsCache a f exact env otree w e
      → t ≤ e.last_operation
      → t < fuel
      → Evaluates a f exact env otree w e (eval f otree fuel t) (IsValueOf a f exact env otree w t)
  unfolding eval
  eval-Evaluates zero t e h l k = absurd (omega arith)
  eval-Evaluates (suc fuel) t e h l k =
      let (flag, g) = get_elem?_of_lt e.flags t (omega (arith, h.flags_size)) in
      let test : ltb e.last_operation t ≡ false = ground arith in
      Evaluates-at a f exact env otree w {n = eval_term f otree (λ i. eval f otree fuel i) t flag}
        (rw (test, at-of e.flags t flag g, eval))
        (term_sound (λ i. eval f otree fuel i) t
          (λ e' h' j q l'. eval-Evaluates fuel j e' h' (omega arith) (omega arith)) e h l flag g)
