-- ===== src/Tree/ConvertTests.antt =====
-- Formulas printed for small trees.
use Prim.Native.String.{String}
use dynare.Base.{inr, ℕ, zero, suc, ◌≡◌, refl, [], ◌∷◌, some, Bool, true, false, ok, arith}
use dynare.Tree.{uminus, exp, plus, minus, times, power, OperationTree, nulary, unary, binary}
use dynare.Tree.Meaning.{Denotes, atom, value1, value2}
use dynare.Tree.Convert.{
  convert, nulary_text, parenthesised, op1_par, op2_par, unary_name, binary_name,
}
use dynare.Tree.Grammar.{Reassociates}
use dynare.Tree.Precedence.{IsPlain, AtomsRead}
use dynare.Tree.Lead.{is_lead, is_sign, number, is_digit, all_digits}
use dynare.Tree.Converted.{HasNoLeads, Printed, convert-Reads}
use dynare.Tree.Tests.{product_tree, product_tree-IsTree, modulo_two, env, binary_value}

abbrev name_of : ℕ → String
name_of t = "x"

abbrev two_over_pi_text : String
two_over_pi_text = "1.1283791670955126"

-- Two numbers, the constant and a variable.
data Atom : String → Bool → Type 0 where
  zero_number : Atom "0" false
  one_number : Atom "1" true
  decimal : Atom "1.1283791670955126" true
  variable : Atom "x" true

product-AtomsRead : AtomsRead modulo_two env Atom product_tree name_of two_over_pi_text
product-AtomsRead = record {
  zero_reads = zero_number;
  one_reads = one_number;
  two_over_pi_reads = decimal;
  names_read = λ i h g. variable;
}

product-IsPlain : IsPlain product_tree
product-IsPlain zero j k m e = cc
product-IsPlain (suc zero) j k m e = cc
product-IsPlain (suc (suc zero)) j k m e = cc
product-IsPlain (suc (suc (suc zero))) j k m e = cc
product-IsPlain (suc (suc (suc (suc zero)))) j k m e = cc
product-IsPlain (suc (suc (suc (suc (suc zero))))) j k m e = cc
product-IsPlain (suc (suc (suc (suc (suc (suc zero)))))) j k m e = cc
product-IsPlain (suc (suc (suc (suc (suc (suc (suc i))))))) j k m e = cc

abbrev xor : Bool → Bool → Bool
xor false y = y
xor true false = true
xor true true = false

plus_xor : (x y : Bool) → binary_value plus x y ≡ some (xor x y)
plus_xor false y = refl
plus_xor true false = refl
plus_xor true true = refl

minus_xor : (x y : Bool) → binary_value minus x y ≡ some (xor x y)
minus_xor false y = refl
minus_xor true false = refl
minus_xor true true = refl

xor_assoc : (x y z : Bool) → xor (xor x y) z ≡ xor x (xor y z)
xor_assoc false y z = refl
xor_assoc true false z = refl
xor_assoc true true false = refl
xor_assoc true true true = refl

modulo_two-Reassociates : Reassociates modulo_two Atom
modulo_two-Reassociates = record {
  plus_plus = λ {x} {y} {z} {w} {v} e f. (
    xor x y,
    plus_xor x y,
    cc (plus_xor y z, plus_xor x w, plus_xor (xor x y) z, xor_assoc x y z),
  );
  plus_minus = λ {x} {y} {z} {w} {v} e f. (
    xor x y,
    plus_xor x y,
    cc (minus_xor y z, plus_xor x w, minus_xor (xor x y) z, xor_assoc x y z),
  );
}

product_text_run :
    convert product_tree name_of two_over_pi_text 7 (binary times 4 5) 6 ≡ ok "x * exp(x)"
unfolding convert nulary_text parenthesised op1_par op2_par unary_name binary_name
product_text_run = refl

product-value : Denotes modulo_two env product_tree.terms 6 true
product-value =
    value2 times refl (atom (omega arith) refl refl)
      (value1 exp refl (atom (omega arith) refl refl) refl) refl

product-HasNoLeads :
    HasNoLeads modulo_two env Atom product_tree product_tree-IsTree name_of two_over_pi_text
      product-AtomsRead
unfolding is_lead is_sign number is_digit all_digits nulary_text
product-HasNoLeads zero i code e f = cc
product-HasNoLeads (suc zero) i code e f = cc
product-HasNoLeads (suc (suc zero)) i code e f = cc
product-HasNoLeads (suc (suc (suc zero))) i code e f = cc
product-HasNoLeads (suc (suc (suc (suc zero)))) i code e f = cc
product-HasNoLeads (suc (suc (suc (suc (suc zero))))) i code e f =
    inr (let k : i ≡ 4 = cc in rw k refl)
product-HasNoLeads (suc (suc (suc (suc (suc (suc zero)))))) i code e f = cc
product-HasNoLeads (suc (suc (suc (suc (suc (suc (suc t))))))) i code e f = cc

convert-Reads_example :
    Printed modulo_two env Atom product_tree product_tree-IsTree name_of two_over_pi_text
      product-AtomsRead
      (convert product_tree name_of two_over_pi_text 7 (binary times 4 5) 6)
      (binary times 4 5)
      true
convert-Reads_example =
    convert-Reads modulo_two env Atom product_tree product_tree-IsTree name_of two_over_pi_text
      product-AtomsRead modulo_two-Reassociates product-IsPlain product-HasNoLeads 7 6
      (binary times 4 5) true refl (omega arith) product-value

-- A power of a negation is printed as the negation of a power.
abbrev negation_squared : OperationTree
negation_squared = record product_tree {
  terms =
      nulary ∷ nulary ∷ nulary ∷ nulary ∷ nulary ∷ unary uminus 4 ∷ nulary ∷ binary power 5 6 ∷ [];
}

negation_squared_run :
    convert negation_squared name_of two_over_pi_text 8 (binary power 5 6) 7 ≡ ok "-(x) ^ x"
unfolding convert nulary_text parenthesised op1_par op2_par unary_name binary_name
negation_squared_run = refl
