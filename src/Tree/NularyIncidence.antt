-- ===== src/Tree/NularyIncidence.antt =====
-- The loop of `update_nul_incidence_after_nularify` in parser/cc/tree.cc makes the incidence sets those of
-- the changed terms.
use dynare.Base.{
  ℕ, zero, suc, ◌+◌, ◌≤◌, ◌<◌, ◌≡◌, ◌≢◌, ◌⊎◌, refl, sym, ◌∙◌, subst, inl, inr, List, [], ◌∷◌, Bool,
  true, false, some, Result, ok, arith, length, at-of, set, get_or, get_elem?, get_elem?_of_lt,
  length-set, get_elem?-set_self, get_elem?-set_ne, get_elem?-eq-get_or, leb, ◌==◌, ==_iff, ◌||◌,
  Bool-cases,
}
use mathlib.Core.Option.{some-injective}
use dynare.Tree.{
  Operation, nulary, unary, binary, insert, insert_all, has, update_term, update_from,
}
use dynare.Tree.Invariant.{OperandsBelow}
use dynare.Tree.Incidence.{
  Occurs, itself, under, left, right, has-insert, has-insert_all, Occurs-nulary, Occurs-unary,
  Occurs-binary, singleton_has,
}

either_true : (p q : Bool) → (p || q) ≡ true → (p ≡ true) ⊎ (q ≡ true)
either_true p q e = ground arith

both_false : (p q : Bool) → (p || q) ≡ false → (p ≡ false) × (q ≡ false)
both_false p q e = ground arith

-- The set has the nulary terms that occur in the term.
abbrev pub ExactAt : List Operation → ℕ → List ℕ → Type 0
ExactAt terms i s =
    (v : ℕ) → ((has v s ≡ true) → Occurs terms v i) × (Occurs terms v i → (has v s ≡ true))

module _ (old new : List Operation) (t : ℕ)
    (same : (i : ℕ) → t ≢ i → get_elem? new i ≡ get_elem? old i)
    (at_t : get_elem? new t ≡ some nulary) where
  other : {i : ℕ} → (Occurs new t i → ⊥) → t ≢ i
  other {i} fresh q = fresh (itself (subst (λ k. get_elem? new k ≡ some nulary) q at_t) (sym q))

  -- A term in which the new nulary term does not occur has the operands that it had.
  to_new : {v i : ℕ} → (Occurs new t i → ⊥) → Occurs old v i → Occurs new v i
  to_new fresh (itself e f) = itself (same _ (other fresh) ∙ e) f
  to_new fresh (under code e o) =
      let e' = same _ (other fresh) ∙ e in under code e' (to_new (λ p. fresh (under code e' p)) o)
  to_new fresh (left code e o) =
      let e' = same _ (other fresh) ∙ e in left code e' (to_new (λ p. fresh (left code e' p)) o)
  to_new fresh (right code e o) =
      let e' = same _ (other fresh) ∙ e in right code e' (to_new (λ p. fresh (right code e' p)) o)

  to_old : {v i : ℕ} → (Occurs new t i → ⊥) → Occurs new v i → Occurs old v i
  to_old fresh (itself e f) = itself (sym (same _ (other fresh)) ∙ e) f
  to_old fresh (under code e o) =
      under code (sym (same _ (other fresh)) ∙ e) (to_old (λ p. fresh (under code e p)) o)
  to_old fresh (left code e o) =
      left code (sym (same _ (other fresh)) ∙ e) (to_old (λ p. fresh (left code e p)) o)
  to_old fresh (right code e o) =
      right code (sym (same _ (other fresh)) ∙ e) (to_old (λ p. fresh (right code e p)) o)

  module _ (inc0 : List (List ℕ))
      (exact0 : (i : ℕ) (s : List ℕ) → get_elem? inc0 i ≡ some s → ExactAt old i s) where
    -- Before the round `tnode`: the sets below are those of the new terms, the others are untouched, and
    -- the terms below that contain `t` are marked.
    pub record Fixed (tnode : ℕ) (inc : List (List ℕ)) (updated : List ℕ) : Type 0 where
      pub size : length inc ≡ length new
      pub done : (i : ℕ) (s : List ℕ) → i < tnode → get_elem? inc i ≡ some s → ExactAt new i s
      pub later : (i : ℕ) → tnode ≤ i → get_elem? inc i ≡ get_elem? inc0 i
      pub marked : (i : ℕ) → has i updated ≡ true → (i < tnode) × Occurs new t i
      pub marks : (i : ℕ) → i < tnode → Occurs new t i → has i updated ≡ true

    module _ (tnode : ℕ) (inc : List (List ℕ)) (updated : List ℕ) (x : Fixed tnode inc updated)
        (inside : tnode < length new) where
      set-Fixed :
          (s : List ℕ)
          → ExactAt new tnode s
          → Occurs new t tnode
          → Fixed (tnode + 1) (set inc tnode s) (insert tnode updated)
      set-Fixed s exact o = record {
        size = length-set inc tnode s ∙ x.size;
        done = λ i r h e. elim (Bool-cases (tnode == i)) [
          | inl f ↦
              let place : tnode ≡ i = (==_iff tnode i).0 f in
              let value : s ≡ r = some-injective _ _ (
                sym (get_elem?-set_self inc tnode s (omega (arith, x.size)))
                ∙ subst (λ k. get_elem? (set inc tnode s) k ≡ some r) (sym place) e) in
              subst (λ k. ExactAt new k r) place (subst (ExactAt new tnode) value exact)
          | inr f ↦
              let ne : tnode ≢ i = (λ q. ground arith) in
              x.done i r (ground arith) (sym (get_elem?-set_ne inc s ne) ∙ e)
        ];
        later = λ i h. get_elem?-set_ne inc s (λ q. omega arith) ∙ x.later i (omega arith);
        marked = λ i q. elim ((has-insert i tnode updated).0 q) [
          | inl r ↦ let (l, p) = x.marked i r in (omega (arith, l), p)
          | inr r ↦ (omega (arith, r), subst (Occurs new t) r o)
        ];
        marks = λ i h p. (has-insert i tnode updated).1 (elim (Bool-cases (tnode == i)) [
          | inl f ↦ inr ((==_iff tnode i).0 f)
          | inr f ↦ inl (x.marks i (ground arith) p)
        ]);
      }

      keep-Fixed : (Occurs new t tnode → ⊥) → Fixed (tnode + 1) inc updated
      keep-Fixed fresh = record {
        size = x.size;
        done = λ i r h e. elim (Bool-cases (tnode == i)) [
          | inl f ↦
              let place : tnode ≡ i = (==_iff tnode i).0 f in
              let fresh' : Occurs new t i → ⊥ = subst (λ k. Occurs new t k → ⊥) place fresh in
              let was = exact0 i r (sym (x.later i (omega arith)) ∙ e) in
              λ v. (λ q. to_new fresh' ((was v).0 q), λ p. (was v).1 (to_old fresh' p))
          | inr f ↦ x.done i r (ground arith) e
        ];
        later = λ i h. x.later i (omega arith);
        marked = λ i q. let (l, p) = x.marked i q in (omega (arith, l), p);
        marks = λ i h p. elim (Bool-cases (tnode == i)) [
          | inl f ↦ absurd (fresh (subst (Occurs new t) (sym ((==_iff tnode i).0 f)) p))
          | inr f ↦ x.marks i (ground arith) p
        ];
      }

      -- What a round leaves.
      abbrev Next : Result (List (List ℕ) × List ℕ) → Type 0
      Next r =
          (inc' : List (List ℕ)) × (updated' : List ℕ) × (r ≡ ok (inc', updated'))
          × Fixed (tnode + 1) inc' updated'

      Next-set :
          (s : List ℕ)
          → ExactAt new tnode s
          → Occurs new t tnode
          → Next (ok (set inc tnode s, insert tnode updated))
      Next-set s e o = (set inc tnode s, insert tnode updated, refl, set-Fixed s e o)

      Next-keep : (Occurs new t tnode → ⊥) → Next (ok (inc, updated))
      Next-keep fresh = (inc, updated, refl, keep-Fixed fresh)

      operand_set : (j : ℕ) → j < tnode → ExactAt new j (get_or inc j [])
      operand_set j h = x.done j _ h (get_elem?-eq-get_or inc j [] (omega (arith, x.size)))

      not_marked : (j : ℕ) → j < tnode → has j updated ≡ false → Occurs new t j → ⊥
      not_marked j h e p = cc (x.marks j h p)

      update_term-Fixed :
          (op : Operation)
          → get_elem? new tnode ≡ some op
          → OperandsBelow tnode op
          → Next (update_term t tnode op inc updated)
      unfolding update_term has
      update_term-Fixed nulary e h = elim (Bool-cases (tnode == t)) [
        | inl f ↦
            let place : tnode ≡ t = (==_iff tnode t).0 f in
            rw f (
              Next-set (tnode ∷ [])
                (λ v. (
                  λ q. itself e ((singleton_has v tnode).0 q),
                  λ p. (singleton_has v tnode).1 (Occurs-nulary e p),
                ))
                (itself e place))
        | inr f ↦ rw f (Next-keep (λ p. ground (arith, Occurs-nulary e p)))
      ]
      update_term-Fixed (unary code a) e h =
          let ordered : leb tnode a ≡ false = ground arith in
          let inner = operand_set a h in
          elim (Bool-cases (has a updated)) [
            | inl f ↦
                rw (ordered, f)
                  (Next-set (get_or inc a [])
                    (λ v. (λ q. under code e ((inner v).0 q), λ p. (inner v).1 (Occurs-unary e p)))
                    (under code e (x.marked a f).1))
            | inr f ↦ rw (ordered, f) (Next-keep (λ p. not_marked a h f (Occurs-unary e p)))
          ]
      update_term-Fixed (binary code a b) e h =
          let ordered : leb tnode a ≡ false = ground arith in
          let ordered' : leb tnode b ≡ false = ground arith in
          let inner = operand_set a h.0 in
          let inner' = operand_set b h.1 in
          elim (Bool-cases (has a updated || has b updated)) [
            | inl f ↦
                rw (ordered, ordered', f)
                  (Next-set (insert_all (get_or inc b []) (get_or inc a []))
                    (λ v.
                      let m = has-insert_all v (get_or inc b []) (get_or inc a []) in
                      (
                        λ q. elim (m.0 q) [
                          | inl r ↦ left code e ((inner v).0 r)
                          | inr r ↦ right code e ((inner' v).0 r)
                        ],
                        λ p. m.1 (elim (Occurs-binary e p) [
                          | inl r ↦ inl ((inner v).1 r)
                          | inr r ↦ inr ((inner' v).1 r)
                        ]),
                      ))
                    (elim (either_true (has a updated) (has b updated) f) [
                      | inl r ↦ left code e (x.marked a r).1
                      | inr r ↦ right code e (x.marked b r).1
                    ]))
            | inr f ↦
                let (ga, gb) = both_false (has a updated) (has b updated) f in
                rw (ordered, ordered', f)
                  (Next-keep (λ p. elim (Occurs-binary e p) [
                    | inl r ↦ not_marked a h.0 ga r
                    | inr r ↦ not_marked b h.1 gb r
                  ]))
          ]

    pub update_from-Fixed :
        (count tnode : ℕ) (inc : List (List ℕ)) (updated : List ℕ)
        → ((i : ℕ) (o : Operation) → get_elem? new i ≡ some o → OperandsBelow i o)
        → tnode + count ≤ length new
        → Fixed tnode inc updated
        → (inc' : List (List ℕ)) × (updated' : List ℕ) × (update_from count t tnode new inc updated
            ≡ ok inc')
          × Fixed (tnode + count) inc' updated'
    unfolding update_from
    update_from-Fixed zero tnode inc updated h k x =
        (inc, updated, refl, subst (λ n. Fixed n inc updated) (omega arith) x)
    update_from-Fixed (suc count) tnode inc updated h k x =
        let (op, e) = get_elem?_of_lt new tnode (omega arith) in
        let (inc1, updated1, f, y) =
          update_term-Fixed tnode inc updated x (omega arith) op e (h tnode op e) in
        let (inc2, updated2, g, z) =
          update_from-Fixed count (tnode + 1) inc1 updated1 h (omega arith) y in
        (
          inc2,
          updated2,
          rw (at-of new tnode op e, f) g,
          subst (λ n. Fixed n inc2 updated2) (omega arith) z,
        )
