-- ===== src/Tree/Precedence.antt =====
-- What is printed for one operation is a formula, if what is printed for the operands is.
use Prim.Native.String.{String, ◌++◌}
use dynare.Tree.Lead.{is_lead}
use dynare.Base.{false, ◌⊎◌, inl, inr, ℕ, ◌≤◌, ◌≡◌, ◌≢◌, refl, subst, some, get_elem?}
use dynare.Tree.{
  UnaryCode, uminus, log, exp, sin, cos, tan, sqrt, erf, erfc, BinaryCode, plus, minus, times,
  divide, power, Operation, nulary, unary, binary, OperationTree, num_constants,
}
use dynare.Tree.Meaning.{Arithmetic}
use dynare.Tree.Convert.{
  is_binary, is_sum, parenthesised, op1_par, op2_par, unary_name, binary_name,
}
use dynare.Tree.Grammar.{
  keyword, Level, sums, products, negations, powers, units, Reads, group, call, raised, negated,
  multiplied, divided, subtracted, unit_power, power_negation, negation_product, Reassociates,
  Reads-plus, Reads-sum, spaced,
}

-- The level of what is printed for an operation.
abbrev pub level_of : Operation → Level
level_of nulary = units
level_of (unary uminus a) = negations
level_of (unary log a) = units
level_of (unary exp a) = units
level_of (unary sin a) = units
level_of (unary cos a) = units
level_of (unary tan a) = units
level_of (unary sqrt a) = units
level_of (unary erf a) = units
level_of (unary erfc a) = units
level_of (binary plus a b) = sums
level_of (binary minus a b) = sums
level_of (binary times a b) = products
level_of (binary divide a b) = products
level_of (binary power a b) = powers

-- No power has a negation as its first operand.
abbrev pub IsPlain : OperationTree → Type 0
IsPlain t =
    (i j k m : ℕ)
    → get_elem? t.terms i ≡ some (binary power j k)
    → get_elem? t.terms j ≢ some (unary uminus m)

module _ {D : Type 0} (a : Arithmetic D) (env : ℕ → D) (Atom : String → D → Type 0) where
  -- The names and numbers that are printed for nulary terms are those of their values.
  pub record AtomsRead (t : OperationTree) (name_of : ℕ → String) (two_over_pi_text : String)
      : Type 0 where
    pub zero_reads : Atom "0" a.zero_value
    pub one_reads : Atom "1" a.one_value
    pub two_over_pi_reads : Atom two_over_pi_text a.two_over_pi_value
    pub names_read :
        (i : ℕ) → num_constants ≤ i → get_elem? t.terms i ≡ some nulary → Atom (name_of i) (env i)

  abbrev pub In : Operation → String → D → Type 0
  In op s x = Reads a Atom (level_of op) s x

  group_sum :
      (op : Operation) {s : String} {x : D} → In op s x → Reads a Atom units ("(" ++ (s ++ ")")) x
  group_sum op d = group (Reads-sum a Atom (level_of op) d)

  lifted : {s : String} {x : D} → Reads a Atom units s x → Reads a Atom negations s x
  lifted d = power_negation (unit_power d)

  -- An operand of TIMES, DIVIDE or POWER.
  operand :
      (op : Operation) {s : String} {x : D}
      → In op s x
      → Reads a Atom negations (parenthesised (is_binary op) s) x
  unfolding parenthesised
  operand nulary d = lifted d
  operand (unary uminus i) d = d
  operand (unary log i) d = lifted d
  operand (unary exp i) d = lifted d
  operand (unary sin i) d = lifted d
  operand (unary cos i) d = lifted d
  operand (unary tan i) d = lifted d
  operand (unary sqrt i) d = lifted d
  operand (unary erf i) d = lifted d
  operand (unary erfc i) d = lifted d
  operand (binary code i j) d = lifted (group_sum (binary code i j) d)

  -- The first operand of POWER.
  base :
      (op : Operation) {s : String} {x : D}
      → ((m : ℕ) → op ≢ unary uminus m)
      → In op s x
      → Reads a Atom units (parenthesised (is_binary op) s) x
  unfolding parenthesised
  base nulary n d = d
  base (unary uminus i) n d = absurd (n i refl)
  base (unary log i) n d = d
  base (unary exp i) n d = d
  base (unary sin i) n d = d
  base (unary cos i) n d = d
  base (unary tan i) n d = d
  base (unary sqrt i) n d = d
  base (unary erf i) n d = d
  base (unary erfc i) n d = d
  base (binary code i j) n d = group_sum (binary code i j) d

  -- The second operand of MINUS.
  subtrahend :
      (op : Operation) {s : String} {x : D}
      → In op s x
      → Reads a Atom products (parenthesised (is_sum op) s) x
  unfolding parenthesised
  subtrahend nulary d = negation_product (lifted d)
  subtrahend (unary uminus i) d = negation_product d
  subtrahend (unary log i) d = negation_product (lifted d)
  subtrahend (unary exp i) d = negation_product (lifted d)
  subtrahend (unary sin i) d = negation_product (lifted d)
  subtrahend (unary cos i) d = negation_product (lifted d)
  subtrahend (unary tan i) d = negation_product (lifted d)
  subtrahend (unary sqrt i) d = negation_product (lifted d)
  subtrahend (unary erf i) d = negation_product (lifted d)
  subtrahend (unary erfc i) d = negation_product (lifted d)
  subtrahend (binary plus i j) d = negation_product (lifted (group_sum (binary plus i j) d))
  subtrahend (binary minus i j) d = negation_product (lifted (group_sum (binary minus i j) d))
  subtrahend (binary times i j) d = d
  subtrahend (binary divide i j) d = d
  subtrahend (binary power i j) d = negation_product (power_negation d)

  -- What stands in the parentheses of a call is no lead.
  abbrev pub IsArgument : UnaryCode → String → Type 0
  IsArgument code s = (code ≡ uminus) ⊎ (is_lead s ≡ false)

  no_lead : (code : UnaryCode) (s : String) → code ≢ uminus → IsArgument code s → is_lead s ≡ false
  no_lead code s n (inl e) = absurd (n e)
  no_lead code s n (inr e) = e

  called :
      (code : UnaryCode) (op : Operation) {s w : String} {x y : D}
      → keyword code ≡ some w
      → code ≢ uminus
      → IsArgument code s
      → In op s x
      → a.apply1 code x ≡ some y
      → Reads a Atom units (w ++ ("(" ++ (s ++ ")"))) y
  called code op k n p d e = call code k (no_lead code _ n p) (Reads-sum a Atom (level_of op) d) e

  pub printed1 :
      (code : UnaryCode) (i : ℕ) (op : Operation) {s : String} {x y : D}
      → IsArgument code s
      → In op s x
      → a.apply1 code x ≡ some y
      → In (unary code i) (unary_name code ++ ("(" ++ (s ++ ")"))) y
  unfolding unary_name
  printed1 uminus i op p d e = negated (lifted (group_sum op d)) e
  printed1 log i op p d e = called log op refl (λ q. cc) p d e
  printed1 exp i op p d e = called exp op refl (λ q. cc) p d e
  printed1 sin i op p d e = called sin op refl (λ q. cc) p d e
  printed1 cos i op p d e = called cos op refl (λ q. cc) p d e
  printed1 tan i op p d e = called tan op refl (λ q. cc) p d e
  printed1 sqrt i op p d e = called sqrt op refl (λ q. cc) p d e
  printed1 erf i op p d e = called erf op refl (λ q. cc) p d e
  printed1 erfc i op p d e = called erfc op refl (λ q. cc) p d e

  pub printed2 :
      Reassociates a Atom
      → (code : BinaryCode) (i j : ℕ) (op1 op2 : Operation) {s r : String} {x y z : D}
      → (code ≡ power → (m : ℕ) → op1 ≢ unary uminus m)
      → In op1 s x
      → In op2 r y
      → a.apply2 code x y ≡ some z
      → In
          (binary code i j)
          (parenthesised (op1_par code op1) s
            ++ (" " ++ (binary_name code ++ (" " ++ parenthesised (op2_par code op2) r))))
          z
  unfolding op1_par op2_par binary_name parenthesised
  printed2 law plus i j op1 op2 {s} {r} {z} n d e f =
      subst (λ v. Reads a Atom sums v z) (spaced s "+" r)
        (Reads-plus a Atom law (Reads-sum a Atom (level_of op1) d)
          (Reads-sum a Atom (level_of op2) e) f)
  printed2 law minus i j op1 op2 {s} {r} {z} n d e f =
      subst (λ v. Reads a Atom sums v z) (spaced s "-" (parenthesised (is_sum op2) r))
        (subtracted (Reads-sum a Atom (level_of op1) d) (subtrahend op2 e) f)
  printed2 law times i j op1 op2 {s} {r} {z} n d e f =
      subst (λ v. Reads a Atom products v z)
        (spaced (parenthesised (is_binary op1) s) "*" (parenthesised (is_binary op2) r))
        (multiplied (negation_product (operand op1 d)) (operand op2 e) f)
  printed2 law divide i j op1 op2 {s} {r} {z} n d e f =
      subst (λ v. Reads a Atom products v z)
        (spaced (parenthesised (is_binary op1) s) "/" (parenthesised (is_binary op2) r))
        (divided (negation_product (operand op1 d)) (operand op2 e) f)
  printed2 law power i j op1 op2 {s} {r} {z} n d e f =
      subst (λ v. Reads a Atom powers v z)
        (spaced (parenthesised (is_binary op1) s) "^" (parenthesised (is_binary op2) r))
        (raised (base op1 (n refl) d) (operand op2 e) f)
