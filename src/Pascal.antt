-- ===== src/Pascal.antt =====
-- The Pascal triangle of utils/cc/pascal_triangle.cc: a table of binomial coefficients that grows on
-- demand. The global vector `tr` is a state that each call takes and returns. The sums of `prolong`
-- are of `int`, and raise the error `overflow` where one reaches 2^31.
pub mod Binomial
pub mod Factorial
pub mod Rows
pub mod Noverk
pub mod Tests
use Prim.Native.Nat.{◌^◌}
use dynare.Base.{
  ℕ, zero, suc, ◌+◌, ◌-◌, List, [], ◌∷◌, ◌++◌, Result, ok, err, Error, length, drop, ltb, ◌==◌,
  if◌then◌else◌, at, ◌>>=◌,
}

-- A row holds the coefficients `n over k` for its `k`, from `n = k + 1` on.
pub record PascalRow : Type 0 where
  pub k : ℕ
  pub items : List ℕ

abbrev pub Triangle : Type 0
Triangle = List PascalRow

-- The default constructor, whose body pushes 2.
abbrev pub new_row : PascalRow
new_row = record { k = 1; items = 2 ∷ [] }

-- `tr(1)`: one row made by the default constructor.
abbrev pub initial : Triangle
initial = new_row ∷ []

-- `back()`, with a value for a vector that is empty, where no call is made.
pub back {ℓ} : {A : Type ℓ} → A → List A → A
back d [] = d
back d (x ∷ xs) = back x xs

-- A sum of `int`; what overflows is undefined.
pub plus_int : ℕ → ℕ → Result ℕ
plus_int x y = if ltb (x + y) (2 ^ 31) then ok (x + y) else err Error.overflow

-- The loop of `prolong` over the items of the previous row that are still unused.
pub running : ℕ → List ℕ → Result (List ℕ)
running last [] = ok []
running last (x ∷ xs) = do last' ← plus_int last x; rest ← running last' xs; ok (last' ∷ rest)

-- The first item, which `prolong` pushes on an empty row.
pub started : PascalRow → List ℕ
started row = if length row.items == 0 then (row.k + 1) ∷ [] else row.items

pub prolong : PascalRow → PascalRow → Result PascalRow
prolong row prev = do
  let items = started row
  more ← running (back 0 items) (drop (length items) prev.items)
  ok (record row { items = items ++ more })

-- `clear` and `prolong` with the next `k`.
pub set_from_previous : PascalRow → PascalRow → Result PascalRow
set_from_previous row prev = prolong (record { k = prev.k + 1; items = [] }) prev

-- `count` rounds of `push_back(i)` from `i` on.
pub count_up : ℕ → ℕ → List ℕ
count_up zero i = []
count_up (suc count) i = i ∷ count_up count (i + 1)

-- `for (i = size + 2; i <= n; i++) push_back(i)` makes `n - 1 - size` rounds.
pub prolong_first : PascalRow → ℕ → PascalRow
prolong_first row n =
    let size = length row.items in
    record row { items = row.items ++ count_up (n - 1 - size) (size + 2) }

-- `tr[i-1].prolong(tr[i-2])` for the rows behind the first, each from the row made just before.
pub prolong_rows : PascalRow → List PascalRow → Result (List PascalRow)
prolong_rows prev [] = ok []
prolong_rows prev (row ∷ rows) = do
  row' ← prolong row prev
  rows' ← prolong_rows row' rows
  ok (row' ∷ rows')

-- `rounds` rounds of `emplace_back` and `setFromPrevious`.
pub add_rows : ℕ → Triangle → Result Triangle
add_rows zero tr = ok tr
add_rows (suc rounds) tr = do
  row ← set_from_previous new_row (back new_row tr)
  add_rows rounds (tr ++ row ∷ [])

pub max_n : Triangle → ℕ
max_n [] = 1
max_n (row ∷ rows) = length row.items + 1

pub max_k : Triangle → ℕ
max_k tr = length tr

-- The first block of `ensure`: along n.
pub prolong_all : ℕ → PascalRow → List PascalRow → Result Triangle
prolong_all n row rows = do
  let first = prolong_first row n
  rows' ← prolong_rows first rows
  ok (first ∷ rows')

pub ensure_n : ℕ → Triangle → Result Triangle
ensure_n n [] = ok []
ensure_n n (row ∷ rows) =
    if ltb (max_n (row ∷ rows)) n then prolong_all n row rows else ok (row ∷ rows)

-- The second block: along k.
pub ensure_k : ℕ → Triangle → Result Triangle
ensure_k k tr = if ltb (max_k tr) k then add_rows (k - max_k tr) tr else ok tr

pub ensure : ℕ → ℕ → Triangle → Result Triangle
ensure n k tr = do tr' ← ensure_n n tr; ensure_k k tr'

-- `(tr[k-1])[n-1-k]`
pub entry : Triangle → ℕ → ℕ → Result ℕ
entry tr i j = do row ← at tr i; at row.items j

-- The smaller of `k` and `n - k`.
pub smaller_k : ℕ → ℕ → ℕ
smaller_k n k = if ltb (n - k) k then n - k else k

pub lookup_over : ℕ → ℕ → Triangle → Result (ℕ × Triangle)
lookup_over n k tr = do tr' ← ensure n k tr; x ← entry tr' (k - 1) (n - 1 - k); ok (x, tr')

pub noverk : ℕ → ℕ → Triangle → Result (ℕ × Triangle)
noverk n k tr = let k' = smaller_k n k in if k' == 0 then ok (1, tr) else lookup_over n k' tr
