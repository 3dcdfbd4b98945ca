-- ===== src/Permutation/Preserving.antt =====
-- The permutations of a set that keep a sequence.
use dynare.Base.{
  ℕ, ◌≡◌, ◌↔◌, refl, sym, ap, ◌∙◌, subst, List, [], ◌∷◌, true, false, ok, arith, length,
  length-replicate, ◌==◌, ==_iff, Bool-cases, inl, inr, at-of, get_elem?_of_lt, replicate,
}
use dynare.Sequence.{equal}
use dynare.Permutation.{apply, apply_items}
use dynare.Permutation.Inverse.{Places}
use dynare.Permutation.Sorting.{Places-of}
use dynare.Permutation.Sets.{PermutationSet, preserving_from, get_preserving}
use dynare.Permutation.Complete.{IsPermutation, In, AllPermutations, IsComplete}

equal_iff : (s t : List ℕ) → (equal s t ≡ true) ↔ (s ≡ t)
unfolding equal
equal_iff [] [] = (λ e. refl, λ e. refl)
equal_iff [] (y ∷ t) = (λ e. cc, λ e. cc)
equal_iff (x ∷ s) [] = (λ e. cc, λ e. cc)
equal_iff (x ∷ s) (y ∷ t) = (
  λ e. ap2 x y s t ((==_iff x y).0 (ground arith)) ((equal_iff s t).0 (ground arith)),
  λ e. ground (arith, (==_iff x y).1 cc, (equal_iff s t).1 cc),
)
  where
    ap2 : (x y : ℕ) (s t : List ℕ) → x ≡ y → s ≡ t → x ∷ s ≡ y ∷ t
    ap2 x y s t e f = rw (e, f) refl

apply_items-total :
    (p src : List ℕ)
    → Places (length src) p
    → (tar : List ℕ) × (apply_items p src ≡ ok tar) × (length tar ≡ length p)
unfolding apply_items
apply_items-total [] src h = ([], refl, refl)
apply_items-total (i ∷ p) src h =
    let (x, g) = get_elem?_of_lt src i h.0 in
    let (tar, r, size) = apply_items-total p src h.2 in
    (x ∷ tar, rw (at-of src i x g, r) refl, omega arith)

-- `apply` reads the length of its target only.
apply-total :
    (n : ℕ) (p s : List ℕ)
    → length s ≡ n
    → IsPermutation n p
    → (tar : List ℕ) × (length tar ≡ n) × ((tmp : List ℕ) → length tmp ≡ n → apply p s tmp ≡ ok tar)
unfolding apply
apply-total n p s e h =
    let (tar, r, size) =
      apply_items-total p s (Places-of (length s) p (λ k. rw e (omega (arith, h.1 k)))) in
    let first : (length s == length p) ≡ true = (==_iff _ _).1 (omega (arith, h.0)) in
    (
      tar,
      omega (arith, h.0),
      λ tmp f.
          let second : (length tmp == length p) ≡ true = (==_iff _ _).1 (omega (arith, h.0)) in
          rw (first, second) r,
    )

abbrev Keeps : List ℕ → List ℕ → Type 0
Keeps s p = apply p s s ≡ ok s

record Filtered (pers : List (List ℕ)) (s tmp : List ℕ) : Type 0 where
  kept : List (List ℕ)
  returns : preserving_from (length pers) pers s tmp ≡ ok kept
  exact : (p : List ℕ) → In p kept ↔ (In p pers × Keeps s p)

preserving_from-keeps :
    (n : ℕ) (pers : List (List ℕ)) (s tmp : List ℕ)
    → AllPermutations n pers
    → length s ≡ n
    → length tmp ≡ n
    → Filtered pers s tmp
unfolding preserving_from
preserving_from-keeps n [] s tmp h e f = record {
  kept = [];
  returns = refl;
  exact = λ p. (λ a. absurd a, λ a. absurd (a.0));
}
preserving_from-keeps n (q ∷ pers) s tmp h e f =
    let (tar, size, applied) = apply-total n q s e h.0 in
    let r = preserving_from-keeps n pers s tar h.1 e size in
    elim (Bool-cases (equal s tar)) [
      | inl b ↦
          let keeps : Keeps s q = applied s e ∙ ap ok (sym ((equal_iff s tar).0 b)) in
          record {
            kept = q ∷ r.kept;
            returns = rw (applied tmp f, r.returns) (rw b refl);
            exact = λ p. (
              λ a. elim a [
                | inl i ↦ (inl i, subst (λ t. Keeps s t) i keeps)
                | inr i ↦ (inr (((r.exact p).0 i).0), ((r.exact p).0 i).1)
              ],
              λ a. elim (a.0) [ inl i ↦ inl i | inr i ↦ inr ((r.exact p).1 (i, a.1)) ],
            );
          }
      | inr b ↦ record {
        kept = r.kept;
        returns = rw (applied tmp f, r.returns) (rw b refl);
        exact = λ p. (
          λ a. (inr (((r.exact p).0 a).0), ((r.exact p).0 a).1),
          λ a. elim (a.0) [
            | inl i ↦ absurd (changed s tar (equal_iff s tar) b (sym (applied s e) ∙ rw i (a.1)))
            | inr i ↦ (r.exact p).1 (i, a.1)
          ],
        );
      }
    ]
  where
    changed :
        (s tar : List ℕ)
        → (equal s tar ≡ true) ↔ (s ≡ tar)
        → equal s tar ≡ false
        → ok tar ≡ ok s
        → ⊥
    changed s tar q b e = cc (q.1 cc)

In-IsPermutation :
    (n : ℕ) (p : List ℕ) (ps : List (List ℕ)) → AllPermutations n ps → In p ps → IsPermutation n p
In-IsPermutation n p [] h k = absurd k
In-IsPermutation n p (q ∷ ps) h (inl e) = subst (IsPermutation n) e h.0
In-IsPermutation n p (q ∷ ps) h (inr k) = In-IsPermutation n p ps h.1 k

-- For the set of all permutations of order n and a sequence of that length, `getPreserving` raises
-- nothing and returns exactly the permutations of order n that leave the sequence as it is.
pub get_preserving-keeps :
    (n : ℕ) (ps : PermutationSet)
    → IsComplete n ps
    → (s : List ℕ) → length s ≡ n
    → (kept : List (List ℕ)) × (get_preserving s ps ≡ ok kept)
      × ((p : List ℕ) → In p kept ↔ (IsPermutation n p × (apply p s s ≡ ok s)))
unfolding get_preserving
get_preserving-keeps n ps h s e =
    let r =
      preserving_from-keeps n ps.pers s (replicate (length s) 0) h.sound e
        (length-replicate (length s) 0 ∙ e) in
    let test : (length s == ps.order) ≡ true = (==_iff _ _).1 (e ∙ sym h.same_order) in
    let size : ps.size ≡ length ps.pers = h.same_size ∙ sym h.as_many in
    (
      r.kept,
      rw (test, size) r.returns,
      λ p. (
        λ a. let b = (r.exact p).0 a in (In-IsPermutation n p ps.pers h.sound b.0, b.1),
        λ a. (r.exact p).1 (h.complete p a.0, a.1),
      ),
    )
