-- ===== src/Pascal/Noverk.antt =====
-- The triangle as a whole: `ensure` keeps it a triangle of binomial coefficients, and `noverk` reads
-- the right one.
use Prim.Native.Nat.{◌^◌}
use native.Mathlib.Nat.{zero-add, add-zero, suc-add, add-suc}
use dynare.Base.{
  ℕ, zero, suc, ◌+◌, ◌-◌, ◌≤◌, ◌<◌, ◌≡◌, refl, ap, ◌∙◌, List, [], ◌∷◌, ◌++◌, length, get_elem?,
  some, ok, arith, Bool-cases, inl, inr, ltb, ltb→lt, at,
}
use dynare.Pascal.{
  PascalRow, Triangle, back, prolong_rows, prolong_all, add_rows, ensure_n, ensure_k, ensure, max_n,
  max_k, entry, smaller_k, lookup_over, noverk, new_row, initial, set_from_previous,
}
use dynare.Pascal.Binomial.{binom, binom_symm, binom-zero}
use dynare.Pascal.Rows.{
  row_of, item, item_lt, HasRoom, length-items_from, get_elem?-items_from, prolong-row_of,
  set_from_previous-row_of, prolong_first-row_of,
}

-- `count` rows of one size, from the row for `k` on.
abbrev pub rows_from : ℕ → ℕ → ℕ → List PascalRow
rows_from k zero size = []
rows_from k (suc count) size = row_of k size ∷ rows_from (suc k) count size

-- The triangle with the rows for 1, …, k + 1, each with s + 1 items.
abbrev pub triangle : ℕ → ℕ → Triangle
triangle k s = rows_from 1 (suc k) (suc s)

-- Every row holds binomial coefficients, and all have one size; there are at most K + 1 rows of at
-- most S + 1 items.
abbrev pub IsPascal : ℕ → ℕ → Triangle → Type 0
IsPascal K S tr = (k : ℕ) × (s : ℕ) × (tr ≡ triangle k s) × (k ≤ K) × (s ≤ S)

pub initial-IsPascal : (K S : ℕ) → IsPascal K S initial
unfolding binom
initial-IsPascal K S = (0, 0, refl, omega arith, omega arith)

length-rows_from : (k count size : ℕ) → length (rows_from k count size) ≡ count
length-rows_from k zero size = refl
length-rows_from k (suc count) size = ap suc (length-rows_from (suc k) count size)

max_n-triangle : (k s : ℕ) → max_n (triangle k s) ≡ s + 2
unfolding max_n
max_n-triangle k s = rw (length-items_from 1 0 (suc s)) (omega arith)

back-rows_from :
    (row : PascalRow) (k count size : ℕ)
    → back row (rows_from k (suc count) size) ≡ row_of (k + count) size
unfolding back
back-rows_from row k zero size = rw (add-zero k)
back-rows_from row k (suc count) size =
    back-rows_from (row_of k size) (suc k) count size ∙ simp (suc-add, add-suc)

rows_from-append :
    (k count size : ℕ)
    → rows_from k count size ++ row_of (k + count) size ∷ [] ≡ rows_from k (suc count) size
rows_from-append k zero size = rw (add-zero k)
rows_from-append k (suc count) size = simp (add-suc, ← rows_from-append (suc k) count size, suc-add)

add_rows-step :
    (rounds : ℕ) (tr : Triangle) (row : PascalRow)
    → set_from_previous new_row (back new_row tr) ≡ ok row
    → add_rows (suc rounds) tr ≡ add_rows rounds (tr ++ row ∷ [])
unfolding add_rows
add_rows-step rounds tr row e = rw e refl

module _ (K S : ℕ) (room : HasRoom K S) where
  prolong_rows-rows_from :
      (k count s d : ℕ)
      → k + count ≤ suc K
      → s + d ≤ S
      → prolong_rows (row_of k (suc s + d)) (rows_from (suc k) count (suc s))
        ≡ ok (rows_from (suc k) count (suc s + d))
  unfolding prolong_rows
  prolong_rows-rows_from k zero s d hk hs = refl
  prolong_rows-rows_from k (suc count) s d hk hs =
      rw
        (
          prolong-row_of K S room k s d (omega arith) hs,
          prolong_rows-rows_from (suc k) count s d (omega arith) hs,
        )
        refl

  -- The first block when the rows are too short.
  prolong_all-triangle :
      (n k s : ℕ)
      → s + 2 < n
      → k ≤ K
      → n ≤ S + 2
      → prolong_all n (row_of 1 (suc s)) (rows_from 2 k (suc s)) ≡ ok (triangle k (n - 2))
  unfolding prolong_all
  prolong_all-triangle n k s h hk hn =
      let d = n - 2 - s in
      let size : suc s + d ≡ suc (n - 2) = omega arith in
      rw
        (
          prolong_first-row_of (suc s) d n (omega arith),
          prolong_rows-rows_from 1 k s d (omega arith) (omega arith),
          size,
        )
        refl

  ensure_n-triangle :
      (n k s : ℕ)
      → k ≤ K
      → s ≤ S
      → n ≤ S + 2
      → (s' : ℕ) × (ensure_n n (triangle k s) ≡ ok (triangle k s')) × (n ≤ s' + 2) × (s' ≤ S)
  unfolding ensure_n
  ensure_n-triangle n k s hk hs hn = elim (Bool-cases (ltb (s + 2) n)) [
    | inl more ↦ (
      n - 2,
      rw (max_n-triangle k s, more) (prolong_all-triangle n k s (ltb→lt _ _ more) hk hn),
      omega arith,
      omega arith,
    )
    | inr fits ↦ (s, rw (max_n-triangle k s, fits) refl, ground arith, hs)
  ]

  add_rows-triangle :
      (rounds k s : ℕ)
      → k + rounds ≤ K
      → s ≤ S
      → add_rows rounds (triangle k s) ≡ ok (triangle (k + rounds) s)
  unfolding add_rows
  add_rows-triangle zero k s hk hs = rw (add-zero k) refl
  add_rows-triangle (suc rounds) k s hk hs =
      add_rows-step rounds (triangle k s) (row_of (suc (1 + k)) (suc s)) (
        rw (back-rows_from new_row 1 k (suc s))
          (set_from_previous-row_of K S room new_row (1 + k) s (omega arith) hs))
      ∙ ap (λ c. add_rows rounds (triangle k s ++ row_of c (suc s) ∷ [])) (omega arith)
      ∙ ap (add_rows rounds) (rows_from-append 1 (suc k) (suc s))
      ∙ add_rows-triangle rounds (suc k) s (omega arith) hs
      ∙ ap (λ c. ok (triangle c s)) (omega arith)

  ensure_k-triangle :
      (k' k s : ℕ)
      → k' ≤ K + 1
      → k ≤ K
      → s ≤ S
      → (m : ℕ) × (ensure_k k' (triangle k s) ≡ ok (triangle m s)) × (k' ≤ m + 1) × (m ≤ K)
  unfolding ensure_k max_k
  ensure_k-triangle k' k s hk' hk hs = elim (Bool-cases (ltb (suc k) k')) [
    | inl more ↦ (
      k' - 1,
      let h = ltb→lt _ _ more in
          rw (length-rows_from 1 (suc k) (suc s), more)
            (add_rows-triangle (k' - suc k) k s (omega arith) hs
              ∙ ap (λ c. ok (triangle c s)) (omega arith)),
      omega arith,
      omega arith,
    )
    | inr fits ↦ (k, rw (length-rows_from 1 (suc k) (suc s), fits) refl, ground arith, hk)
  ]

  -- After `ensure n k` the triangle is one of binomial coefficients with the item for `n` and `k`.
  ensure-triangle :
      (n k : ℕ) (tr : Triangle)
      → n ≤ S + 2
      → k ≤ K + 1
      → IsPascal K S tr
      → (m : ℕ) × (s : ℕ) × (ensure n k tr ≡ ok (triangle m s))
        × (k ≤ m + 1)
        × (n ≤ s + 2)
        × (m ≤ K)
        × (s ≤ S)
  unfolding ensure
  ensure-triangle n k tr bn bk (m₀, s₀, e, hm₀, hs₀) =
      let (s, en, hn, hs) = ensure_n-triangle n m₀ s₀ hm₀ hs₀ bn in
      let (m, ek, hk, hm) = ensure_k-triangle k m₀ s bk hm₀ hs in
      (m, s, rw (e, en) ek, hk, hn, hm, hs)

get_elem?-rows_from :
    (k count size i : ℕ)
    → i < count
    → get_elem? (rows_from k count size) i ≡ some (row_of (k + i) size)
get_elem?-rows_from k zero size i h = absurd (omega arith)
get_elem?-rows_from k (suc count) size zero h = rw (add-zero k)
get_elem?-rows_from k (suc count) size (suc i) h =
    get_elem?-rows_from (suc k) count size i (omega arith) ∙ simp (suc-add, add-suc)

entry-of :
    (tr : Triangle) (i j x : ℕ) (row : PascalRow)
    → get_elem? tr i ≡ some row
    → get_elem? row.items j ≡ some x
    → entry tr i j ≡ ok x
unfolding entry
entry-of tr i j x row e f = rw (e, at) (rw (f, at))

-- The entry `(tr[k-1])[n-1-k]` for `k = j + 1` is the coefficient.
entry-triangle :
    (n j m s : ℕ)
    → j ≤ m
    → n ≤ s + 2
    → j + 2 ≤ n
    → entry (triangle m s) j (n - 1 - suc j) ≡ ok (binom n (suc j))
entry-triangle n j m s hm hs hn =
    let d = n - 1 - suc j in
    let top : suc (suc j + d) ≡ n = omega arith in
    entry-of (triangle m s) j d (item (suc j) d) (row_of (suc j) (suc s))
      (get_elem?-rows_from 1 (suc m) (suc s) j (omega arith)
        ∙ ap (λ c. some (row_of c (suc s))) (omega arith))
      (get_elem?-items_from (suc j) 0 (suc s) d (omega arith) ∙ rw (zero-add d))
    ∙ ap (λ t. ok (binom t (suc j))) top

pub smaller_k-cases :
    (n k : ℕ) → k ≤ n → (binom n (smaller_k n k) ≡ binom n k) × (smaller_k n k + smaller_k n k ≤ n)
unfolding smaller_k
smaller_k-cases n k h = elim (Bool-cases (ltb (n - k) k)) [
  | inl p ↦ rw p (binom_symm n k h, let q = ltb→lt _ _ p in omega arith)
  | inr p ↦ rw p (refl, ground arith)
]

pub smaller_k_le : (n k : ℕ) → smaller_k n k ≤ k
unfolding smaller_k
smaller_k_le n k = ground arith

-- The arguments that the triangle has room for: the smaller of `k` and `n - k` is the number of a row.
abbrev pub IsInside : ℕ → ℕ → ℕ → ℕ → Type 0
IsInside K S n k = (k ≤ n) × (n ≤ S + 2) × (smaller_k n k ≤ K + 1)

module _ (K S : ℕ) (room : HasRoom K S) where
  lookup_over-binom :
      (n j : ℕ) (tr : Triangle)
      → suc j + suc j ≤ n
      → n ≤ S + 2
      → j ≤ K
      → IsPascal K S tr
      → (tr' : Triangle) × (lookup_over n (suc j) tr ≡ ok (binom n (suc j), tr')) × IsPascal K S tr'
  unfolding lookup_over
  lookup_over-binom n j tr h bn bj p =
      let (m, s, e, hm, hs, bm, bs) = ensure-triangle K S room n (suc j) tr bn (omega arith) p in
      let col : suc j - 1 ≡ j = omega arith in
      (
        triangle m s,
        rw (e, col, entry-triangle n j m s (omega arith) hs (omega arith)) refl,
        (m, s, refl, bm, bs),
      )

  noverk-at :
      (n k k' : ℕ) (tr : Triangle)
      → smaller_k n k ≡ k'
      → binom n k' ≡ binom n k
      → k' + k' ≤ n
      → n ≤ S + 2
      → k' ≤ K + 1
      → IsPascal K S tr
      → (tr' : Triangle) × (noverk n k tr ≡ ok (binom n k, tr')) × IsPascal K S tr'
  unfolding noverk
  noverk-at n k zero tr e b h bn bk p = (tr, rw (e, ← b, binom-zero n), p)
  noverk-at n k (suc j) tr e b h bn bk p =
      let (tr', r, p') = lookup_over-binom n j tr h bn (omega arith) p in
      (tr', ground (arith, e, r, b), p')

-- Where a triangle with K + 1 rows of S + 1 items fits in `int`, `noverk` on a triangle of binomial
-- coefficients within it returns `n over k`, and leaves such a triangle, for every k up to n for which
-- that triangle has room: no sum overflows and no access falls outside a row.
pub noverk-binom :
    (K S : ℕ)
    → HasRoom K S
    → (n k : ℕ) (tr : Triangle) → IsInside K S n k
    → IsPascal K S tr
    → (tr' : Triangle) × (noverk n k tr ≡ ok (binom n k, tr')) × IsPascal K S tr'
noverk-binom K S room n k tr (h, bn, bk) p =
    let (b, small) = smaller_k-cases n k h in
    noverk-at K S room n k (smaller_k n k) tr refl b small bn bk p

-- What `noverk` returns there fits in an `int`.
fits-at :
    (K S n k k' : ℕ)
    → HasRoom K S
    → binom n k' ≡ binom n k
    → k' + k' ≤ n
    → n ≤ S + 2
    → k' ≤ K + 1
    → binom n k < 2 ^ 31
fits-at K S n k zero room b h bn bk = omega (arith, b, binom-zero n)
fits-at K S n k (suc j) room b h bn bk =
    let top : suc (suc j + (n - 2 - j)) ≡ n = omega arith in
    omega (arith, b, rw top at (item_lt K S room j (n - 2 - j) (omega arith) (omega arith)))

pub binom_lt : (K S n k : ℕ) → HasRoom K S → IsInside K S n k → binom n k < 2 ^ 31
binom_lt K S n k room (h, bn, bk) =
    let (b, small) = smaller_k-cases n k h in fits-at K S n k (smaller_k n k) room b small bn bk
