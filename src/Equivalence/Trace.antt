-- ===== src/Equivalence/Trace.antt =====
-- What `trace` writes.
use mathlib.Core.List.{append_assoc}
use dynare.Base.{
  ℕ, zero, suc, ◌+◌, ◌≡◌, refl, ap, sym, ◌∙◌, List, [], ◌∷◌, ◌++◌, ok, arith, length, leb, false,
  ltb, set, take, length-append,
}
use dynare.Equivalence.{Equivalence, write_items, trace_from, trace}
use dynare.Equivalence.Counts.{one_if, count, total, total_length}
use dynare.Equivalence.Partition.{IsPartition}

-- The items of the classes in their order.
abbrev pub items : List (List ℕ) → List ℕ
items [] = []
items (c ∷ cs) = c ++ items cs

count-append : (x : ℕ) (s t : List ℕ) → count x (s ++ t) ≡ count x s + count x t
count-append x [] t = omega arith
count-append x (y ∷ s) t = omega (arith, count-append x s t)

pub count-items : (x : ℕ) (cs : List (List ℕ)) → count x (items cs) ≡ total x cs
count-items x [] = refl
count-items x (c ∷ cs) = omega (arith, count-append x c (items cs), count-items x cs)

pub length-items : (cs : List (List ℕ)) → length (items cs) ≡ total_length cs
length-items [] = refl
length-items (c ∷ cs) = omega (arith, length-append c (items cs), length-items cs)

set-append : (pre post : List ℕ) (y x : ℕ) → set (pre ++ y ∷ post) (length pre) x ≡ pre ++ x ∷ post
set-append [] post y x = refl
set-append (z ∷ pre) post y x = ap (◌∷◌ z) (set-append pre post y x)

-- The items are written behind `pre`, over as many of `old`.
write_items-append :
    (s pre old post : List ℕ)
    → length old ≡ length s
    → write_items (length pre) s (pre ++ (old ++ post)) ≡ ok (pre ++ (s ++ post))
unfolding write_items
write_items-append [] pre [] post h = refl
write_items-append [] pre (y ∷ old) post h = absurd (omega arith)
write_items-append (x ∷ s) pre [] post h = absurd (omega arith)
write_items-append (x ∷ s) pre (y ∷ old) post h =
    let room : leb (length (pre ++ (y ∷ (old ++ post)))) (length pre) ≡ false =
      ground (arith, length-append pre (y ∷ (old ++ post))) in
    let at_end : length pre + 1 ≡ length (pre ++ x ∷ []) =
      omega (arith, length-append pre (x ∷ [])) in
    rw
      (
        room,
        set-append pre (old ++ post) y x,
        at_end,
        ← append_assoc pre (x ∷ []) (old ++ post),
        ← append_assoc pre (x ∷ []) (s ++ post),
      )
      (write_items-append s (pre ++ x ∷ []) old post (omega arith))

split_at :
    (n r : ℕ) (old : List ℕ)
    → length old ≡ n + r
    → (a : List ℕ) × (b : List ℕ) × (old ≡ a ++ b) × (length a ≡ n) × (length b ≡ r)
split_at zero r old h = ([], old, refl, refl, omega (arith, h))
split_at (suc n) r [] h = absurd (omega arith)
split_at (suc n) r (x ∷ old) h =
    let (a, b, e, l, k) = split_at n r old (omega arith) in (x ∷ a, b, ap (◌∷◌ x) e, ap suc l, k)

trace_from-append :
    (cs : List (List ℕ)) (pre old : List ℕ)
    → length old ≡ total_length cs
    → trace_from (length pre) cs (pre ++ old) ≡ ok (pre ++ items cs)
unfolding trace_from
trace_from-append [] pre [] h = refl
trace_from-append [] pre (x ∷ old) h = absurd (omega arith)
trace_from-append (c ∷ cs) pre old h =
    let (a, b, e, l, k) = split_at (length c) (total_length cs) old h in
    let first : write_items (length pre) c (pre ++ old) ≡ ok (pre ++ (c ++ b)) =
      ap (λ o. write_items (length pre) c (pre ++ o)) e ∙ write_items-append c pre a b l in
    let at_end : length pre + length c ≡ length (pre ++ c) = omega (arith, length-append pre c) in
    rw (first, at_end, ← append_assoc pre c b, ← append_assoc pre c (items cs))
      (trace_from-append cs (pre ++ c) b k)

take_all : (cs : List (List ℕ)) → take (length cs) cs ≡ cs
take_all [] = refl
take_all (c ∷ cs) = ap (◌∷◌ c) (take_all cs)

-- For a partition of n items and a sequence of length n, `trace` of all classes raises nothing: it
-- writes a sequence of length n that holds each number below n once and no other number.
pub trace-items :
    (e : Equivalence) (out : List ℕ)
    → IsPartition e.n e.classes
    → length out ≡ e.n
    → (out' : List ℕ) × (trace out (length e.classes) e ≡ ok out')
      × (length out' ≡ e.n)
      × ((x : ℕ) → count x out' ≡ one_if (ltb x e.n))
unfolding trace
trace-items e out p h = (
  items e.classes,
  rw (take_all e.classes) (trace_from-append e.classes [] out (h ∙ sym p.size)),
  length-items e.classes ∙ p.size,
  λ x. count-items x e.classes ∙ p.once x,
)
