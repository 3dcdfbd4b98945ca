-- ===== src/Tree/Data.antt =====
-- The data of parser/cc/tree.hh: operations, the tree, and computations that change it.
use native.Mathlib.Decide.{ℕ_discrete}
use dynare.Base.{
  ℕ, List, [], ◌∷◌, ◌++◌, Option, none, some, Bool, false, Result, ok, err, Error, ◌==◌, ◌||◌,
  if◌then◌else◌,
}

-- `code_t`, by arity: the callers of the class pair each code with its number of operands.
pub data UnaryCode : Type 0 where
  uminus log exp sin cos tan sqrt erf erfc : UnaryCode

pub data BinaryCode : Type 0 where
  plus minus times divide power : BinaryCode

-- An operand is the index of a term; where the source has -1 an operand is absent.
pub data Operation : Type 0 where
  nulary : Operation
  unary : UnaryCode → ℕ → Operation
  binary : BinaryCode → ℕ → ℕ → Operation

unfoldable pub Operation-discrete : Discrete Operation
Operation-discrete = hlevel ℕ_discrete

-- The special terms; two_over_pi is the term with index 3, and num_constants is 4.
abbrev pub zero_term : ℕ
zero_term = 0

abbrev pub one_term : ℕ
one_term = 1

abbrev pub nan_term : ℕ
nan_term = 2

abbrev pub two_over_pi : ℕ
two_over_pi = 3

abbrev pub num_constants : ℕ
num_constants = 4

-- `opmap` and the maps of derivatives are association lists, and a set of terms is a list. The index
-- `last_nulary` is -1 only while the constructor runs.
pub record OperationTree : Type 0 where
  pub terms : List Operation
  pub opmap : List (Operation × ℕ)
  pub nul_incidence : List (List ℕ)
  pub derivatives : List (List (ℕ × ℕ))
  pub last_nulary : Option ℕ

-- Computations that change a tree and may raise an exception.
abbrev pub M : Type 0 → Type 0
M A = OperationTree → Result (A × OperationTree)

infixl 5 ◌>>=◌
abbrev pub ◌>>=◌ : {A B : Type 0} → M A → (A → M B) → M B
◌>>=◌ m f t = elim (m t) [ ok (a, t') ↦ f a t' | err e ↦ err e ]

abbrev pub return : {A : Type 0} → A → M A
return a t = ok (a, t)

abbrev pub raise : {A : Type 0} → Error → M A
raise e t = err e

-- A value read from the tree.
abbrev pub read : {A : Type 0} → (OperationTree → Result A) → M A
read f t = elim (f t) [ ok a ↦ ok (a, t) | err e ↦ err e ]

unfoldable pub find : Operation → List (Operation × ℕ) → Option ℕ
find o [] = none
find o ((p, i) ∷ m) = elim (Operation-discrete p o) [ yes e ↦ some i | no n ↦ find o m ]

unfoldable pub lookup : ℕ → List (ℕ × ℕ) → Option ℕ
lookup v [] = none
lookup v ((u, d) ∷ m) = if u == v then some d else lookup v m

unfoldable pub has : ℕ → List ℕ → Bool
has v [] = false
has v (u ∷ s) = u == v || has v s

-- `insert` of one number, and of all the numbers of another set.
unfoldable pub insert : ℕ → List ℕ → List ℕ
insert v s = if has v s then s else s ++ v ∷ []

unfoldable pub insert_all : List ℕ → List ℕ → List ℕ
insert_all [] s = s
insert_all (v ∷ r) s = insert_all r (insert v s)
