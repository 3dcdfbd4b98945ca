-- ===== src/Pascal/Rows.antt =====
-- The rows of the triangle hold binomial coefficients: what one call of `prolong`, `prolongFirst`
-- and `setFromPrevious` makes of such rows, as long as the items fit in an `int`.
use Prim.Native.Nat.{◌^◌}
use native.Mathlib.Nat.{zero-add, add-zero, suc-add, add-suc}
use dynare.Base.{
  ℕ, zero, suc, ◌+◌, ◌-◌, ◌<◌, ◌≡◌, refl, sym, ap, ◌∙◌, List, [], ◌∷◌, ◌++◌, length, drop,
  get_elem?, some, arith, ok, ◌≤◌, ltb, true,
}
use dynare.Pascal.{
  PascalRow, back, plus_int, running, started, prolong, set_from_previous, count_up, prolong_first,
}
use dynare.Pascal.Binomial.{binom, binom-one, binom_symm}

-- The item `i` of the row for `k`.
abbrev pub item : ℕ → ℕ → ℕ
item k i = binom (suc (k + i)) k

-- The items from `i` on.
abbrev pub items_from : ℕ → ℕ → ℕ → List ℕ
items_from k i zero = []
items_from k i (suc size) = item k i ∷ items_from k (suc i) size

abbrev pub row_of : ℕ → ℕ → PascalRow
row_of k size = record { k = k; items = items_from k 0 size }

pub length-items_from : (k i size : ℕ) → length (items_from k i size) ≡ size
length-items_from k i zero = refl
length-items_from k i (suc size) = ap suc (length-items_from k (suc i) size)

pub drop-items_from :
    (k i d size : ℕ) → drop d (items_from k i (d + size)) ≡ items_from k (d + i) size
drop-items_from k i zero size = rw (zero-add size, zero-add i)
drop-items_from k i (suc d) size = simp (suc-add, drop-items_from k (suc i) d size, add-suc)

pub items_from-append :
    (k i a b : ℕ) → items_from k i a ++ items_from k (i + a) b ≡ items_from k i (a + b)
items_from-append k i zero b = rw (add-zero i, zero-add b)
items_from-append k i (suc a) b = simp (suc-add, add-suc, ← items_from-append k (suc i) a b)

items_from-append_zero : (k a b : ℕ) → items_from k 0 a ++ items_from k a b ≡ items_from k 0 (a + b)
items_from-append_zero k a b = rw zero-add at (items_from-append k 0 a b)

pub back-items_from : (d k i size : ℕ) → back d (items_from k i (suc size)) ≡ item k (i + size)
unfolding back
back-items_from d k i zero = rw (add-zero i)
back-items_from d k i (suc size) =
    back-items_from (item k i) k (suc i) size ∙ simp (suc-add, add-suc)

-- Pascal's rule along a row.
item_step : (k i : ℕ) → item (suc k) i + item k (suc i) ≡ item (suc k) (suc i)
unfolding binom
item_step k i = simp (suc-add, add-suc) (omega arith)

item_head : (k : ℕ) → item k 0 ≡ k + 1
item_head k =
    let e : suc k - 1 ≡ k = omega arith in
    rw (add-zero k) (rw e at (binom_symm (suc k) 1 (omega arith)) ∙ binom-one (suc k) ∙ omega arith)

-- Items grow along a row and from one row to the next.
item-mono_row : (k i d : ℕ) → item (suc k) i ≤ item (suc k) (i + d)
item-mono_row k i zero = rw (add-zero i) (omega arith)
item-mono_row k i (suc d) = rw add-suc (omega (arith, item-mono_row k i d, item_step k (i + d)))

item-mono_step : (k i : ℕ) → item k i ≤ item (suc k) i
item-mono_step k zero = omega (arith, item_head k, item_head (suc k))
item-mono_step k (suc i) = omega (arith, item_step k i)

item-mono_k : (k i d : ℕ) → item k i ≤ item (k + d) i
item-mono_k k i zero = rw (add-zero k) (omega arith)
item-mono_k k i (suc d) = rw add-suc (omega (arith, item-mono_k k i d, item-mono_step (k + d) i))

-- The last item of the last row of a triangle with `K + 1` rows of `S + 1` items fits in an `int`.
abbrev pub HasRoom : ℕ → ℕ → Type 0
HasRoom K S = item (suc K) S < 2 ^ 31

-- So do all its items.
pub item_lt : (K S : ℕ) → HasRoom K S → (k i : ℕ) → k ≤ K → i ≤ S → item (suc k) i < 2 ^ 31
item_lt K S room k i hk hi =
    let a : i + (S - i) ≡ S = omega arith in
    let b : suc k + (K - k) ≡ suc K = omega arith in
    let row : item (suc k) i ≤ item (suc k) S = rw a at (item-mono_row k i (S - i)) in
    let down : item (suc k) S ≤ item (suc K) S = rw b at (item-mono_k (suc k) S (K - k)) in
    omega (arith, row, down, room)

pub size_lt : (K S : ℕ) → HasRoom K S → S + 2 < 2 ^ 31
size_lt K S room =
    let e : suc (1 + S) ≡ S + 2 = omega arith in
    omega (arith, item_lt K S room 0 S (omega arith) (omega arith), binom-one (suc (1 + S)), e)

pub plus_int_of : (x y z : ℕ) → x + y ≡ z → z < 2 ^ 31 → plus_int x y ≡ ok z
unfolding plus_int
plus_int_of x y z e h = rw e (let test : ltb z (2 ^ 31) ≡ true = ground arith in rw test)

pub get_elem?-items_from :
    (k i size j : ℕ) → j < size → get_elem? (items_from k i size) j ≡ some (item k (i + j))
get_elem?-items_from k i zero j h = absurd (omega arith)
get_elem?-items_from k i (suc size) zero h = rw (add-zero i)
get_elem?-items_from k i (suc size) (suc j) h =
    get_elem?-items_from k (suc i) size j (omega arith) ∙ simp (suc-add, add-suc)

started-row_of : (k size : ℕ) → started (row_of k (suc size)) ≡ items_from k 0 (suc size)
unfolding started
started-row_of k size = ground arith

module _ (K S : ℕ) (room : HasRoom K S) where
  pub running-items_from :
      (k i size : ℕ)
      → k ≤ K
      → i + size ≤ S
      → running (item (suc k) i) (items_from k (suc i) size) ≡ ok (items_from (suc k) (suc i) size)
  unfolding running
  running-items_from k i zero hk hs = refl
  running-items_from k i (suc size) hk hs =
      rw
        (
          plus_int_of _ _ _ (item_step k i) (item_lt K S room k (suc i) hk (omega arith)),
          running-items_from k (suc i) size hk (omega arith),
        )
        refl

  pub prolong-row_of :
      (k a d : ℕ)
      → k ≤ K
      → a + d ≤ S
      → prolong (row_of (suc k) (suc a)) (row_of k (suc a + d)) ≡ ok (row_of (suc k) (suc a + d))
  unfolding prolong
  prolong-row_of k a d hk hs =
      rw
        (
          started-row_of (suc k) a,
          length-items_from (suc k) 0 (suc a),
          drop-items_from k 0 (suc a) d,
          back-items_from 0 (suc k) 0 a,
          add-zero (suc a),
          zero-add a,
          running-items_from k a d hk hs,
        )
        (ap (λ l. ok (record { k = suc k; items = l })) (items_from-append_zero (suc k) (suc a) d))

  pub set_from_previous-row_of :
      (row : PascalRow) (k size : ℕ)
      → k ≤ K
      → size ≤ S
      → set_from_previous row (row_of k (suc size)) ≡ ok (row_of (suc k) (suc size))
  unfolding set_from_previous prolong started back
  set_from_previous-row_of row k size hk hs =
      let head : k + 1 + 1 ≡ item (suc k) 0 = sym (item_head (suc k) ∙ omega arith) in
      rw (head, running-items_from k 0 size hk (omega arith))
        (ap (λ n. ok (record { k = n; items = items_from (suc k) 0 (suc size) })) (omega arith))

count_up-items_from : (count i : ℕ) → count_up count (i + 2) ≡ items_from 1 i count
unfolding count_up
count_up-items_from zero i = refl
count_up-items_from (suc count) i =
    let head : item 1 i ≡ i + 2 = binom-one (suc (1 + i)) ∙ omega arith in
    let next : i + 2 + 1 ≡ suc i + 2 = omega arith in
    rw (head, next, count_up-items_from count (suc i))

pub prolong_first-row_of :
    (size d n : ℕ) → size + d + 1 ≡ n → prolong_first (row_of 1 size) n ≡ row_of 1 (size + d)
unfolding prolong_first
prolong_first-row_of size d n e =
    ap (λ l. record { k = 1; items = l })
      let rounds : n - 1 - size ≡ d = omega arith in
        rw (length-items_from 1 0 size, rounds, count_up-items_from d size)
          (items_from-append_zero 1 size d)
