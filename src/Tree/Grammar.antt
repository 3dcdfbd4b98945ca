-- ===== src/Tree/Grammar.antt =====
-- The formulas of parser/cc/formula.yy, with the tokens of formula.ll, and their values. A token is
-- followed by a space where the program prints one. `diff`, whose value is not one of its text's values
-- but a derivative's, is left out.
use Prim.Native.String.{String, ◌++◌}
use text.Mathlib.TextLemmas.{append_assoc}
use dynare.Tree.Lead.{is_lead}
use dynare.Base.{false, ◌≡◌, ap, ◌∙◌, subst, Option, none, some}
use dynare.Tree.{
  UnaryCode, uminus, log, exp, sin, cos, tan, sqrt, erf, erfc, plus, minus, times, divide, power,
}
use dynare.Tree.Meaning.{Arithmetic}

-- The precedences: PLUS and MINUS, TIMES and DIVIDE, the unary minus, POWER, and what stands alone.
pub data Level : Type 0 where
  sums products negations powers units : Level

abbrev pub keyword : UnaryCode → Option String
keyword uminus = none
keyword log = some "log"
keyword exp = some "exp"
keyword sin = some "sin"
keyword cos = some "cos"
keyword tan = some "tan"
keyword sqrt = some "sqrt"
keyword erf = some "erf"
keyword erfc = some "erfc"

regroup : (s p q t : String) → (s ++ (p ++ q)) ++ t ≡ s ++ (p ++ (q ++ t))
regroup s p q t = append_assoc s (p ++ q) t ∙ ap (λ v. s ++ v) (append_assoc p q t)

-- An operator with its spaces.
pub spaced : (s w r : String) → s ++ ((" " ++ (w ++ " ")) ++ r) ≡ s ++ (" " ++ (w ++ (" " ++ r)))
spaced s w r =
    ap (λ v. s ++ v) (append_assoc " " (w ++ " ") r ∙ ap (λ v. " " ++ v) (append_assoc w " " r))

module _ {D : Type 0} (a : Arithmetic D) (Atom : String → D → Type 0) where
  -- A text of the level is a formula with the value. `Atom` are the names and the numbers. A keyword with
  -- an integer in parentheses is a name by the longest match, and no call.
  pub data Reads : Level → String → D → Type 0 where
    unit : {s : String} {x : D} → Atom s x → Reads units s x
    group : {s : String} {x : D} → Reads sums s x → Reads units ("(" ++ (s ++ ")")) x
    call :
        {s w : String} {x y : D} (code : UnaryCode)
        → keyword code ≡ some w
        → is_lead s ≡ false
        → Reads sums s x
        → a.apply1 code x ≡ some y
        → Reads units (w ++ ("(" ++ (s ++ ")"))) y
    raised :
        {s r : String} {x y z : D}
        → Reads units s x
        → Reads negations r y
        → a.apply2 power x y ≡ some z
        → Reads powers (s ++ (" ^ " ++ r)) z
    negated :
        {s : String} {x y : D}
        → Reads negations s x
        → a.apply1 uminus x ≡ some y
        → Reads negations ("-" ++ s) y
    kept : {s : String} {x : D} → Reads negations s x → Reads negations ("+" ++ s) x
    multiplied :
        {s r : String} {x y z : D}
        → Reads products s x
        → Reads negations r y
        → a.apply2 times x y ≡ some z
        → Reads products (s ++ (" * " ++ r)) z
    divided :
        {s r : String} {x y z : D}
        → Reads products s x
        → Reads negations r y
        → a.apply2 divide x y ≡ some z
        → Reads products (s ++ (" / " ++ r)) z
    added :
        {s r : String} {x y z : D}
        → Reads sums s x
        → Reads products r y
        → a.apply2 plus x y ≡ some z
        → Reads sums (s ++ (" + " ++ r)) z
    subtracted :
        {s r : String} {x y z : D}
        → Reads sums s x
        → Reads products r y
        → a.apply2 minus x y ≡ some z
        → Reads sums (s ++ (" - " ++ r)) z
    unit_power : {s : String} {x : D} → Reads units s x → Reads powers s x
    power_negation : {s : String} {x : D} → Reads powers s x → Reads negations s x
    negation_product : {s : String} {x : D} → Reads negations s x → Reads products s x
    product_sum : {s : String} {x : D} → Reads products s x → Reads sums s x

  -- Sums can be taken from the left.
  pub record Reassociates : Type 0 where
    pub plus_plus :
        {x y z w v : D}
        → a.apply2 plus y z ≡ some w
        → a.apply2 plus x w ≡ some v
        → (u : D) × (a.apply2 plus x y ≡ some u) × (a.apply2 plus u z ≡ some v)
    pub plus_minus :
        {x y z w v : D}
        → a.apply2 minus y z ≡ some w
        → a.apply2 plus x w ≡ some v
        → (u : D) × (a.apply2 plus x y ≡ some u) × (a.apply2 minus u z ≡ some v)

  -- A sum behind PLUS is read from the left, with the same value.
  pub Reads-plus :
      Reassociates
      → {s r : String} {x y z : D} → Reads sums s x
      → Reads sums r y
      → a.apply2 plus x y ≡ some z
      → Reads sums (s ++ (" + " ++ r)) z
  Reads-plus w d (product_sum e) q = added d e q
  Reads-plus w {s} {z} d (added {s = s1} {r = r1} e f p) q =
      let (u, g, h) = w.plus_plus p q in
      subst (λ v. Reads sums v z) (regroup s " + " s1 (" + " ++ r1))
        (added (Reads-plus w d e g) f h)
  Reads-plus w {s} {z} d (subtracted {s = s1} {r = r1} e f p) q =
      let (u, g, h) = w.plus_minus p q in
      subst (λ v. Reads sums v z) (regroup s " + " s1 (" - " ++ r1))
        (subtracted (Reads-plus w d e g) f h)

  -- Every text of a level is a sum.
  pub Reads-sum : (l : Level) {s : String} {x : D} → Reads l s x → Reads sums s x
  Reads-sum sums d = d
  Reads-sum products d = product_sum d
  Reads-sum negations d = product_sum (negation_product d)
  Reads-sum powers d = product_sum (negation_product (power_negation d))
  Reads-sum units d = product_sum (negation_product (power_negation (unit_power d)))
