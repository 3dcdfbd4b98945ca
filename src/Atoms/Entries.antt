-- ===== src/Atoms/Entries.antt =====
-- Reads of a map after changes of it, for the tables of parser/cc/dynamic_atoms.cc.
use dynare.Base.{
  ◌≡◌, ◌≢◌, ◌↔◌, ◌⊎◌, inl, inr, refl, ap, sym, ◌∙◌, subst, List, [], ◌∷◌, none, some, Bool, true,
  false, not, ◌&&◌, Bool-cases, length, arith, suc,
}
use mathlib.Core.Option.{some-injective}
use dynare.Atoms.Map.{
  Order, IsOrder, same_key, find_key, emplace_key, put_key, erase_key, Above, IsMap,
}

both_not : (p q : Bool) → (not p && not q) ≡ true → (p ≡ false) × (q ≡ false)
both_not p q e = ground arith

module _ {K : Type 0} ⦃o : Order K⦄ (w : IsOrder K) where
  pub same_iff : (j k : K) → (same_key j k ≡ true) ↔ (j ≡ k)
  same_iff j k = (
    λ e. let (p, q) = both_not (o.lt j k) (o.lt k j) e in w.total j k p q,
    λ e. rw (e, w.irreflexive k) refl,
  )

  pub same_no : (j k : K) → j ≢ k → same_key j k ≡ false
  same_no j k ne = elim (Bool-cases (same_key j k)) [
    | inl e ↦ absurd (ne ((same_iff j k).0 e))
    | inr e ↦ e
  ]

  less_ne : (j k : K) → o.lt j k ≡ true → j ≢ k
  less_ne j k e q = cc (subst (λ i. o.lt i k ≡ true) q e, w.irreflexive k)

  module _ {V : Type 0} where
    pub find_here : (k : K) (v : V) (m : List (K × V)) → find_key k ((k, v) ∷ m) ≡ some v
    unfolding find_key
    find_here k v m = rw ((same_iff k k).1 refl) refl

    pub find_there :
        (j k : K) (v : V) (m : List (K × V)) → j ≢ k → find_key k ((j, v) ∷ m) ≡ find_key k m
    unfolding find_key
    find_there j k v m ne = rw (same_no j k ne) refl

    -- The head of a map, or an entry behind it.
    pub find_cases :
        (j k : K) (v x : V) (m : List (K × V))
        → find_key k ((j, x) ∷ m) ≡ some v
        → ((j ≡ k) × (x ≡ v)) ⊎ ((j ≢ k) × (find_key k m ≡ some v))
    unfolding find_key
    find_cases j k v x m h = elim (Bool-cases (same_key j k)) [
      | inl e ↦ inl ((same_iff j k).0 e, some-injective _ _ (rw (find_key, e) at h))
      | inr e ↦ inr ((λ q. cc ((same_iff j k).1 q, e)), rw (find_key, e) at h)
    ]

    pub find_key-emplace_key :
        (k : K) (v : V) (m : List (K × V))
        → find_key k m ≡ none
        → find_key k (emplace_key k v m) ≡ some v
    unfolding emplace_key
    find_key-emplace_key k v [] h = find_here k v []
    find_key-emplace_key k v ((j, x) ∷ m) h = elim (Bool-cases (o.lt k j)) [
      | inl e ↦ rw (emplace_key, e) (find_here k v ((j, x) ∷ m))
      | inr e ↦ elim (Bool-cases (o.lt j k)) [
        | inl e' ↦
            let ne = less_ne j k e' in
            rw (emplace_key, e, e')
              (find_there j k x (emplace_key k v m) ne
                ∙ find_key-emplace_key k v m (sym (find_there j k x m ne) ∙ h))
        | inr e' ↦
            absurd (
              cc
                (subst (λ i. find_key i ((j, x) ∷ m) ≡ none) (w.total k j e e') h, find_here j x m))
      ]
    ]

    -- Equal reads of the rests give equal reads behind one head.
    find_behind :
        (i j : K) (x : V) (m m' : List (K × V))
        → find_key j m ≡ find_key j m'
        → find_key j ((i, x) ∷ m) ≡ find_key j ((i, x) ∷ m')
    unfolding find_key
    find_behind i j x m m' e = rw e refl

    pub find_key-emplace_other :
        (k j : K) (v : V) (m : List (K × V)) → k ≢ j → find_key j (emplace_key k v m) ≡ find_key j m
    unfolding emplace_key
    find_key-emplace_other k j v [] ne = find_there k j v [] ne
    find_key-emplace_other k j v ((i, x) ∷ m) ne = elim (Bool-cases (o.lt k i)) [
      | inl e ↦ rw (emplace_key, e) (find_there k j v ((i, x) ∷ m) ne)
      | inr e ↦ elim (Bool-cases (o.lt i k)) [
        | inl e' ↦
            rw (emplace_key, e, e')
              (find_behind i j x (emplace_key k v m) m (find_key-emplace_other k j v m ne))
        | inr e' ↦ rw (emplace_key, e, e') refl
      ]
    ]

    pub find_key-put_key :
        (k : K) (v x : V) (m : List (K × V))
        → find_key k m ≡ some x
        → find_key k (put_key k v m) ≡ some v
    unfolding put_key find_key
    find_key-put_key k v x [] h = cc
    find_key-put_key k v x ((j, y) ∷ m) h = elim (Bool-cases (same_key j k)) [
      | inl e ↦ rw (put_key, e) (rw e refl)
      | inr e ↦ rw (put_key, e) (rw e (find_key-put_key k v x m (rw (find_key, e) at h)))
    ]

    pub find_key-put_other :
        (k j : K) (v : V) (m : List (K × V)) → k ≢ j → find_key j (put_key k v m) ≡ find_key j m
    unfolding put_key
    find_key-put_other k j v [] ne = refl
    find_key-put_other k j v ((i, x) ∷ m) ne = elim (Bool-cases (same_key i k)) [
      | inl e ↦
          let place : i ≡ k = (same_iff i k).0 e in
          let ne' : i ≢ j = (λ q. ne (sym place ∙ q)) in
          rw (put_key, e) (find_there i j v m ne' ∙ sym (find_there i j x m ne'))
      | inr e ↦
          rw (put_key, e) (find_behind i j x (put_key k v m) m (find_key-put_other k j v m ne))
    ]

    -- A key below all keys of a map is not in it.
    pub Above-absent : (k : K) (m : List (K × V)) → Above k m → find_key k m ≡ none
    unfolding find_key
    Above-absent k [] h = refl
    Above-absent k ((j, x) ∷ m) h =
        let e = same_no j k (λ q. less_ne k j h.0 (sym q)) in rw e (Above-absent k m h.1)

    pub find_key-erase_key :
        (k : K) (m : List (K × V)) → IsMap m → find_key k (erase_key k m) ≡ none
    unfolding erase_key find_key
    find_key-erase_key k [] h = refl
    find_key-erase_key k ((j, x) ∷ m) h = elim (Bool-cases (same_key j k)) [
      | inl e ↦
          rw (erase_key, e) (Above-absent k m (subst (λ i. Above i m) ((same_iff j k).0 e) h.0))
      | inr e ↦ rw (erase_key, e) (rw e (find_key-erase_key k m h.1))
    ]

    pub find_key-erase_other :
        (k j : K) (m : List (K × V)) → k ≢ j → find_key j (erase_key k m) ≡ find_key j m
    unfolding erase_key
    find_key-erase_other k j [] ne = refl
    find_key-erase_other k j ((i, x) ∷ m) ne = elim (Bool-cases (same_key i k)) [
      | inl e ↦
          rw (erase_key, e) (sym (find_there i j x m (λ q. ne (sym ((same_iff i k).0 e) ∙ q))))
      | inr e ↦
          rw (erase_key, e) (find_behind i j x (erase_key k m) m (find_key-erase_other k j m ne))
    ]

    emplace_key-Above :
        (b k : K) (v : V) (m : List (K × V))
        → o.lt b k ≡ true
        → Above b m
        → Above b (emplace_key k v m)
    unfolding emplace_key
    emplace_key-Above b k v [] e h = (e, tt)
    emplace_key-Above b k v ((j, x) ∷ m) e h = elim (Bool-cases (o.lt k j)) [
      | inl f ↦ rw (emplace_key, f) (e, h)
      | inr f ↦ elim (Bool-cases (o.lt j k)) [
        | inl f' ↦ rw (emplace_key, f, f') (h.0, emplace_key-Above b k v m e h.1)
        | inr f' ↦ rw (emplace_key, f, f') h
      ]
    ]

    below_all : (b k : K) (m : List (K × V)) → o.lt b k ≡ true → Above k m → Above b m
    below_all b k [] e h = tt
    below_all b k ((j, x) ∷ m) e h = (w.transitive b k j e h.0, below_all b k m e h.1)

    pub emplace_key-IsMap : (k : K) (v : V) (m : List (K × V)) → IsMap m → IsMap (emplace_key k v m)
    unfolding emplace_key
    emplace_key-IsMap k v [] h = (tt, tt)
    emplace_key-IsMap k v ((j, x) ∷ m) h = elim (Bool-cases (o.lt k j)) [
      | inl f ↦ rw (emplace_key, f) ((f, below_all k j m f h.0), h)
      | inr f ↦ elim (Bool-cases (o.lt j k)) [
        | inl f' ↦
            rw (emplace_key, f, f') (emplace_key-Above j k v m f' h.0, emplace_key-IsMap k v m h.1)
        | inr f' ↦ rw (emplace_key, f, f') h
      ]
    ]

    put_key-Above : (b k : K) (v : V) (m : List (K × V)) → Above b m → Above b (put_key k v m)
    unfolding put_key
    put_key-Above b k v [] h = tt
    put_key-Above b k v ((j, x) ∷ m) h = elim (Bool-cases (same_key j k)) [
      | inl e ↦ rw (put_key, e) h
      | inr e ↦ rw (put_key, e) (h.0, put_key-Above b k v m h.1)
    ]

    pub put_key-IsMap : (k : K) (v : V) (m : List (K × V)) → IsMap m → IsMap (put_key k v m)
    unfolding put_key
    put_key-IsMap k v [] h = tt
    put_key-IsMap k v ((j, x) ∷ m) h = elim (Bool-cases (same_key j k)) [
      | inl e ↦ rw (put_key, e) h
      | inr e ↦ rw (put_key, e) (put_key-Above j k v m h.0, put_key-IsMap k v m h.1)
    ]

    erase_key-Above : (b k : K) (m : List (K × V)) → Above b m → Above b (erase_key k m)
    unfolding erase_key
    erase_key-Above b k [] h = tt
    erase_key-Above b k ((j, x) ∷ m) h = elim (Bool-cases (same_key j k)) [
      | inl e ↦ rw (erase_key, e) h.1
      | inr e ↦ rw (erase_key, e) (h.0, erase_key-Above b k m h.1)
    ]

    pub erase_key-IsMap : (k : K) (m : List (K × V)) → IsMap m → IsMap (erase_key k m)
    unfolding erase_key
    erase_key-IsMap k [] h = tt
    erase_key-IsMap k ((j, x) ∷ m) h = elim (Bool-cases (same_key j k)) [
      | inl e ↦ rw (erase_key, e) h.1
      | inr e ↦ rw (erase_key, e) (erase_key-Above j k m h.0, erase_key-IsMap k m h.1)
    ]

    pub length-emplace_key :
        (k : K) (v : V) (m : List (K × V))
        → find_key k m ≡ none
        → length (emplace_key k v m) ≡ suc (length m)
    unfolding emplace_key
    length-emplace_key k v [] h = refl
    length-emplace_key k v ((j, x) ∷ m) h = elim (Bool-cases (o.lt k j)) [
      | inl e ↦ rw (emplace_key, e) refl
      | inr e ↦ elim (Bool-cases (o.lt j k)) [
        | inl e' ↦
            rw (emplace_key, e, e')
              (ap suc (length-emplace_key k v m (sym (find_there j k x m (less_ne j k e')) ∙ h)))
        | inr e' ↦
            absurd (
              cc
                (subst (λ i. find_key i ((j, x) ∷ m) ≡ none) (w.total k j e e') h, find_here j x m))
      ]
    ]

    pub length-erase_key :
        (k : K) (v : V) (m : List (K × V))
        → find_key k m ≡ some v
        → suc (length (erase_key k m)) ≡ length m
    unfolding erase_key find_key
    length-erase_key k v [] h = cc
    length-erase_key k v ((j, x) ∷ m) h = elim (Bool-cases (same_key j k)) [
      | inl e ↦ rw (erase_key, e) refl
      | inr e ↦ rw (erase_key, e) (ap suc (length-erase_key k v m (rw (find_key, e) at h)))
    ]
