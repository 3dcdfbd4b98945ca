-- ===== src/Permutation/Complete.antt =====
-- A set of the bundle holds the permutations of its order, all of them.
use dynare.Base.{
  ℕ, zero, suc, ◌+◌, ◌*◌, ◌≤◌, ◌<◌, ◌≡◌, refl, sym, ap, ◌∙◌, List, [], ◌∷◌, ◌++◌, true, false, ok,
  arith, subst, length, length-append, ◌==◌, ==_iff, ltb, Bool-cases, ◌⊎◌, inl, inr, take, drop,
}
use dynare.Sequence.{insert_at}
use dynare.Equivalence.Counts.{one_if, count}
use dynare.Pascal.Factorial.{fact}
use dynare.Permutation.{extend}
use dynare.Permutation.Sets.{PermutationSet, extend_places, extend_all, extend_set}

-- A permutation of {0, ..., n-1}.
abbrev pub IsPermutation : ℕ → List ℕ → Type 0
IsPermutation n p = (length p ≡ n) × ((x : ℕ) → count x p ≡ one_if (ltb x n))

abbrev pub In : List ℕ → List (List ℕ) → Type 0
In p [] = ⊥
In p (q ∷ qs) = (q ≡ p) ⊎ In p qs

abbrev pub AllPermutations : ℕ → List (List ℕ) → Type 0
AllPermutations n [] = Unit
AllPermutations n (p ∷ ps) = IsPermutation n p × AllPermutations n ps

In-left : (p : List ℕ) (ps qs : List (List ℕ)) → In p ps → In p (ps ++ qs)
In-left p [] qs h = absurd h
In-left p (r ∷ ps) qs (inl e) = inl e
In-left p (r ∷ ps) qs (inr h) = inr (In-left p ps qs h)

In-right : (p : List ℕ) (ps qs : List (List ℕ)) → In p qs → In p (ps ++ qs)
In-right p [] qs h = h
In-right p (r ∷ ps) qs h = inr (In-right p ps qs h)

AllPermutations-append :
    (n : ℕ) (ps qs : List (List ℕ))
    → AllPermutations n ps
    → AllPermutations n qs
    → AllPermutations n (ps ++ qs)
AllPermutations-append n [] qs h k = k
AllPermutations-append n (p ∷ ps) qs h k = (h.0, AllPermutations-append n ps qs h.1 k)

abbrev inserted : ℕ → ℕ → List ℕ → List ℕ
inserted i pos s = take pos s ++ i ∷ drop pos s

count-inserted :
    (x i pos : ℕ) (s : List ℕ) → count x (inserted i pos s) ≡ one_if (i == x) + count x s
count-inserted x i zero s = refl
count-inserted x i (suc pos) [] = refl
count-inserted x i (suc pos) (y ∷ s) = omega (arith, count-inserted x i pos s)

length-inserted : (i pos : ℕ) (s : List ℕ) → length (inserted i pos s) ≡ length s + 1
length-inserted i zero s = omega arith
length-inserted i (suc pos) [] = refl
length-inserted i (suc pos) (y ∷ s) = omega (arith, length-inserted i pos s)

extend-of : (n j : ℕ) (p : List ℕ) → IsPermutation n p → j ≤ n → extend p j ≡ ok (inserted n j p)
unfolding extend insert_at
extend-of n j p h l =
    let test : ltb (length p) j ≡ false = ground (arith, h.0) in
    rw test (ap (λ (m : ℕ). ok (inserted m j p)) h.0)

inserted-IsPermutation :
    (n j : ℕ) (p : List ℕ) → IsPermutation n p → IsPermutation (n + 1) (inserted n j p)
inserted-IsPermutation n j p h =
    (omega (arith, length-inserted n j p, h.0), λ x. ground (arith, count-inserted x n j p, h.1 x))

-- What a loop makes: `size` permutations of n + 1, among them the ones with n inserted at the places.
record Spread (n j count : ℕ) (p : List ℕ) : Type 0 where
  made : List (List ℕ)
  returns : extend_places count j p ≡ ok made
  size : length made ≡ count
  sound : AllPermutations (n + 1) made
  complete : (k : ℕ) → j ≤ k → k < j + count → In (inserted n k p) made

extend_places-makes :
    (count n j : ℕ) (p : List ℕ) → IsPermutation n p → j + count ≤ n + 1 → Spread n j count p
unfolding extend_places
extend_places-makes zero n j p h l = record {
  made = [];
  returns = refl;
  size = refl;
  sound = tt;
  complete = λ k a b. absurd (omega arith);
}
extend_places-makes (suc count) n j p h l =
    let r = extend_places-makes count n (j + 1) p h (omega arith) in
    record {
      made = inserted n j p ∷ r.made;
      returns = rw (extend-of n j p h (omega arith), r.returns) refl;
      size = omega (arith, r.size);
      sound = (inserted-IsPermutation n j p h, r.sound);
      complete = λ k a b. elim (Bool-cases (j == k)) [
        | inl e ↦ inl (ap (λ (m : ℕ). inserted n m p) ((==_iff j k).0 e))
        | inr e ↦ inr (r.complete k (ground arith) (omega arith))
      ];
    }

record Extended (n : ℕ) (pers : List (List ℕ)) : Type 0 where
  made : List (List ℕ)
  returns : extend_all (length pers) (n + 1) pers ≡ ok made
  size : length made ≡ (n + 1) * length pers
  sound : AllPermutations (n + 1) made
  complete : (p : List ℕ) (k : ℕ) → In p pers → k < n + 1 → In (inserted n k p) made

extend_all-makes : (n : ℕ) (pers : List (List ℕ)) → AllPermutations n pers → Extended n pers
unfolding extend_all
extend_all-makes n [] h = record {
  made = [];
  returns = refl;
  size = omega arith;
  sound = tt;
  complete = λ p k a. absurd a;
}
extend_all-makes n (p ∷ pers) h =
    let q = extend_places-makes (n + 1) n 0 p h.0 (omega arith) in
    let r = extend_all-makes n pers h.1 in
    record {
      made = q.made ++ r.made;
      returns = rw (q.returns, r.returns) refl;
      size = omega (arith, length-append q.made r.made, q.size, r.size);
      sound = AllPermutations-append (n + 1) q.made r.made q.sound r.sound;
      complete = λ p' k a b. elim a [
        | inl e ↦
            In-left (inserted n k p') q.made r.made
              (rw (sym e) (q.complete k (omega arith) (omega arith)))
        | inr g ↦ In-right (inserted n k p') q.made r.made (r.complete p' k g b)
      ];
    }

-- A sequence that holds `i` is one with `i` inserted.
record Removed (i : ℕ) (q : List ℕ) : Type 0 where
  place : ℕ
  others : List ℕ
  same : inserted i place others ≡ q
  inside : place ≤ length others

remove : (i : ℕ) (q : List ℕ) → 1 ≤ count i q → Removed i q
remove i [] h = absurd (omega arith)
remove i (y ∷ q) h = elim (Bool-cases (y == i)) [
  | inl e ↦ record {
    place = 0;
    others = q;
    same = ap (λ (z : ℕ). z ∷ q) (sym ((==_iff y i).0 e));
    inside = omega arith;
  }
  | inr e ↦
      let r = remove i q (ground arith) in
      record {
        place = suc r.place;
        others = y ∷ r.others;
        same = ap (◌∷◌ y) r.same;
        inside = omega (arith, r.inside);
      }
]

-- The set of all permutations of order n.
pub record IsComplete (n : ℕ) (ps : PermutationSet) : Type 0 where
  pub same_order : ps.order ≡ n
  pub same_size : ps.size ≡ fact n
  pub as_many : length ps.pers ≡ fact n
  pub sound : AllPermutations n ps.pers
  pub complete : (p : List ℕ) → IsPermutation n p → In p ps.pers

Removed-IsPermutation :
    (n : ℕ) (q : List ℕ) → IsPermutation (n + 1) q → (r : Removed n q) → IsPermutation n r.others
Removed-IsPermutation n q h r = (
  omega (arith, length-inserted n r.place r.others, ap length r.same, h.0),
  λ x. ground (arith, count-inserted x n r.place r.others, ap (count x) r.same, h.1 x),
)

-- From a set of all permutations of order n the constructor makes one of order n + 1.
pub extend_set-IsComplete :
    (n : ℕ) (ps : PermutationSet)
    → IsComplete n ps
    → (ps' : PermutationSet) × (extend_set ps (n + 1) ≡ ok ps') × IsComplete (n + 1) ps'
unfolding extend_set fact
extend_set-IsComplete n ps h =
    let r = extend_all-makes n ps.pers h.sound in
    let test : (n + 1 == ps.order + 1) ≡ true = (==_iff _ _).1 (omega (arith, h.same_order)) in
    let e : ps.size ≡ length ps.pers = h.same_size ∙ sym h.as_many in
    let g : n + 1 ≡ suc n = omega arith in
    let f : fact (n + 1) ≡ (n + 1) * fact n = ap fact g ∙ omega arith in
    (
      record { order = n + 1; size = (n + 1) * ps.size; pers = r.made },
      rw (test, e, r.returns) refl,
      record {
        same_order = refl;
        same_size = ap (λ (m : ℕ). (n + 1) * m) h.same_size ∙ sym f;
        as_many = r.size ∙ ap (λ (m : ℕ). (n + 1) * m) h.as_many ∙ sym f;
        sound = r.sound;
        complete = λ q g.
            let d = remove n q (ground (arith, g.1 n)) in
            let inside : d.place < n + 1 =
              omega (arith, d.inside, (Removed-IsPermutation n q g d).0) in
            subst (λ t. In t r.made) d.same
              (r.complete d.others d.place (h.complete d.others (Removed-IsPermutation n q g d))
                inside);
      },
    )
