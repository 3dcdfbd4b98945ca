-- ===== src/Tree/Lead.antt =====
-- The suffix of a name in parser/cc/formula.ll: a lead or lag in parentheses, `[(][+-]?[0-9]+[)]`. By
-- the longest match a keyword with such a suffix is a name.
use Prim.Native.Char.{Char, code}
use Prim.Native.String.{String, [], ◌∷◌, ◌++◌}
use text.Mathlib.TextLemmas.{nil-append, cons-append}
use dynare.Base.{
  ◌≡◌, refl, ap, ◌∙◌, Bool, true, false, ◌&&◌, ◌||◌, leb, ◌==◌, if◌then◌else◌, Bool-cases, inl, inr,
}

unfoldable pub is_digit : Char → Bool
is_digit c = leb 48 (code c) && leb (code c) 57

unfoldable pub is_sign : Char → Bool
is_sign c = code c == 43 || code c == 45

unfoldable pub all_digits : String → Bool
all_digits [] = true
all_digits (c ∷ s) = is_digit c && all_digits s

unfoldable pub number : String → Bool
number [] = false
number (c ∷ s) = is_digit c && all_digits s

-- The text in the parentheses: an integer with or without a sign.
unfoldable pub is_lead : String → Bool
is_lead [] = false
is_lead (c ∷ s) = if is_sign c then number s else number (c ∷ s)

and_false : (b : Bool) → (b && false) ≡ false
and_false true = refl
and_false false = refl

all_digits-break :
    (p q : String) (c : Char) → is_digit c ≡ false → all_digits (p ++ (c ∷ q)) ≡ false
unfolding all_digits
all_digits-break [] q c h = rw (nil-append (c ∷ q)) (rw h refl)
all_digits-break (d ∷ p) q c h =
    rw (cons-append d p (c ∷ q)) (rw (all_digits-break p q c h) (and_false (is_digit d)))

number-break : (p q : String) (c : Char) → is_digit c ≡ false → number (p ++ (c ∷ q)) ≡ false
unfolding number
number-break [] q c h = rw (nil-append (c ∷ q)) (rw h refl)
number-break (d ∷ p) q c h =
    rw (cons-append d p (c ∷ q)) (rw (all_digits-break p q c h) (and_false (is_digit d)))

-- A text with a character that is no digit and no sign is not a lead.
is_lead-break :
    (p q : String) (c : Char)
    → is_digit c ≡ false
    → is_sign c ≡ false
    → is_lead (p ++ (c ∷ q)) ≡ false
unfolding is_lead number
is_lead-break [] q c h k = rw (nil-append (c ∷ q)) (rw (k, h) refl)
is_lead-break (d ∷ p) q c h k = rw (cons-append d p (c ∷ q)) (elim (Bool-cases (is_sign d)) [
  | inl e ↦ rw (e, number-break p q c h) refl
  | inr e ↦ rw (e, all_digits-break p q c h) (and_false (is_digit d))
])

-- What is printed for a call and for an operation with two operands.
pub call_is_no_lead : (w s : String) → is_lead (w ++ ("(" ++ s)) ≡ false
unfolding is_digit is_sign
call_is_no_lead w s =
    ap (λ v. is_lead (w ++ v)) (cons-append "(" [] s ∙ ap (λ v. "(" ∷ v) (nil-append s))
    ∙ is_lead-break w s "(" refl refl

pub operation_is_no_lead : (s r : String) → is_lead (s ++ (" " ++ r)) ≡ false
unfolding is_digit is_sign
operation_is_no_lead s r =
    ap (λ v. is_lead (s ++ v)) (cons-append " " [] r ∙ ap (λ v. " " ∷ v) (nil-append r))
    ∙ is_lead-break s r " " refl refl
