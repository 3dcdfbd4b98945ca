-- ===== src/Tree/Converted.antt =====
-- What `convert` prints is a formula with the value of the term.
use Prim.Native.String.{String, ◌++◌}
use dynare.Base.{
  ◌⊎◌, inl, inr, ℕ, zero, suc, ◌<◌, ◌≡◌, ◌≢◌, refl, sym, ap, ◌∙◌, subst, false, some, Result, ok,
  arith, at-of, get_elem?, get_elem?_of_lt, get_elem?_lt, length, ltb,
}
use mathlib.Core.Option.{some-injective}
use dynare.Tree.Lead.{is_lead, call_is_no_lead, operation_is_no_lead}
use dynare.Tree.{
  UnaryCode, uminus, power, Operation, nulary, unary, binary, OperationTree, num_constants,
}
use dynare.Tree.Invariant.{IsTree}
use dynare.Tree.Meaning.{Arithmetic, Denotes, constant, atom, value1, value2}
use dynare.Tree.Operands.{operand_value, operand_values}
use dynare.Tree.Convert.{
  parenthesised, nulary_text, convert, op1_par, op2_par, unary_name, binary_name,
}
use dynare.Tree.Grammar.{units, Reads, unit, Reassociates}
use dynare.Tree.Precedence.{level_of, IsPlain, IsArgument, AtomsRead, printed1, printed2}

module _ {D : Type 0} (a : Arithmetic D) (env : ℕ → D) (Atom : String → D → Type 0) where
  module _ (otree : OperationTree) (w : IsTree otree) (name_of : ℕ → String)
      (two_over_pi_text : String)
      (named : AtomsRead a env Atom otree name_of two_over_pi_text) where
    nulary-Reads :
        {t : ℕ} {x : D}
        → get_elem? otree.terms t ≡ some nulary
        → Denotes a env otree.terms t x
        → Reads a Atom units (nulary_text otree name_of two_over_pi_text t) x
    unfolding nulary_text
    nulary-Reads g (constant {i = zero} h e) =
        subst (Reads a Atom units "0") (some-injective _ _ e) (unit named.zero_reads)
    nulary-Reads g (constant {i = suc zero} h e) =
        subst (Reads a Atom units "1") (some-injective _ _ e) (unit named.one_reads)
    nulary-Reads g (constant {i = suc (suc zero)} h e) = cc
    nulary-Reads g (constant {i = suc (suc (suc zero))} h e) =
        subst (Reads a Atom units two_over_pi_text) (some-injective _ _ e)
          (unit named.two_over_pi_reads)
    nulary-Reads g (constant {i = suc (suc (suc (suc i)))} h e) = absurd (omega arith)
    nulary-Reads {t} g (atom h e f) =
        let test : ltb t num_constants ≡ false = ground arith in
        rw (test, sym f) (unit (named.names_read t h g))
    nulary-Reads g (value1 code e d f) = cc
    nulary-Reads g (value2 code e d d' f) = cc

    -- A text for the term, with its value. Only that of a nulary term can be a lead.
    pub record Printed (n : Result String) (op : Operation) (x : D) : Type 0 where
      pub text : String
      pub returns : n ≡ ok text
      pub reads : Reads a Atom (level_of op) text x
      pub lead : (op ≡ nulary) ⊎ (is_lead text ≡ false)

    convert-nulary :
        (fuel t : ℕ) (text : String)
        → convert otree name_of two_over_pi_text fuel nulary t ≡ ok text
        → nulary_text otree name_of two_over_pi_text t ≡ text
    unfolding convert
    convert-nulary zero t text e = cc
    convert-nulary (suc fuel) t text e = cc

    -- No nulary term below a function is printed as an integer.
    abbrev pub HasNoLeads : Type 0
    HasNoLeads =
        (t i : ℕ) (code : UnaryCode)
        → get_elem? otree.terms t ≡ some (unary code i)
        → get_elem? otree.terms i ≡ some nulary
        → (code ≡ uminus) ⊎ (is_lead (nulary_text otree name_of two_over_pi_text i) ≡ false)

    argument :
        (fuel t i : ℕ) (code : UnaryCode) (op : Operation) {y : D}
        → HasNoLeads
        → get_elem? otree.terms t ≡ some (unary code i)
        → get_elem? otree.terms i ≡ some op
        → (r : Printed (convert otree name_of two_over_pi_text fuel op i) op y)
        → IsArgument a env Atom code r.text
    argument fuel t i code op free g h r = elim r.lead [
      | inl e ↦
          let text = convert-nulary fuel i r.text (rw e at r.returns) in
          rw text at (free t i code g (h ∙ ap some e))
      | inr e ↦ inr e
    ]

    -- Where names and numbers are read as they are printed, sums can be taken from the left, no power has
    -- a negation as its first operand, and no nulary term below a function is printed as an integer,
    -- `convert` of a term that has a value ends within t + 1 nested calls and prints a formula of the
    -- grammar with this value.
    pub convert-Reads :
        Reassociates a Atom
        → IsPlain otree
        → HasNoLeads
        → (fuel t : ℕ) (op : Operation) (x : D) → get_elem? otree.terms t ≡ some op
        → t < fuel
        → Denotes a env otree.terms t x
        → Printed (convert otree name_of two_over_pi_text fuel op t) op x
    unfolding convert
    convert-Reads law plain free zero t op x g l d = absurd (omega arith)
    convert-Reads law plain free (suc fuel) t nulary x g l d = record {
      text = nulary_text otree name_of two_over_pi_text t;
      returns = refl;
      reads = nulary-Reads g d;
      lead = inl refl;
    }
    convert-Reads law plain free (suc fuel) t (unary code i) x g l d =
        let (y, d1, f) = operand_value a env otree w code g d in
        let below = w.ordered t (unary code i) g in
        let (op1, g1) =
          get_elem?_of_lt otree.terms i
            (omega (arith, below, get_elem?_lt otree.terms t (unary code i) g)) in
        let r = convert-Reads law plain free fuel i op1 y g1 (omega (arith, below)) d1 in
        record {
          text = unary_name code ++ ("(" ++ (r.text ++ ")"));
          returns = rw (at-of otree.terms i op1 g1, r.returns) refl;
          reads = printed1 a env Atom code i op1 (argument fuel t i code op1 free g g1 r) r.reads f;
          lead = inr (call_is_no_lead (unary_name code) (r.text ++ ")"));
        }
    convert-Reads law plain free (suc fuel) t (binary code i j) x g l d =
        let (y, z, d1, d2, f) = operand_values a env otree w code g d in
        let below = w.ordered t (binary code i j) g in
        let inside : t < length otree.terms = get_elem?_lt otree.terms t (binary code i j) g in
        let (op1, g1) = get_elem?_of_lt otree.terms i (omega (arith, below.0)) in
        let (op2, g2) = get_elem?_of_lt otree.terms j (omega (arith, below.1)) in
        let r1 = convert-Reads law plain free fuel i op1 y g1 (omega (arith, below.0)) d1 in
        let r2 = convert-Reads law plain free fuel j op2 z g2 (omega (arith, below.1)) d2 in
        let shape : code ≡ power → (m : ℕ) → op1 ≢ unary uminus m =
          λ e m k. plain t i j m (g ∙ ap (λ c. some (binary c i j)) e) (g1 ∙ ap some k) in
        record {
          text =
              parenthesised (op1_par code op1) r1.text
              ++ (" " ++ (binary_name code ++ (" " ++ parenthesised (op2_par code op2) r2.text)));
          returns =
              rw (at-of otree.terms i op1 g1, at-of otree.terms j op2 g2, r1.returns, r2.returns)
                refl;
          reads = printed2 a env Atom law code i j op1 op2 shape r1.reads r2.reads f;
          lead = inr (
              operation_is_no_lead (parenthesised (op1_par code op1) r1.text)
                (binary_name code ++ (" " ++ parenthesised (op2_par code op2) r2.text)));
        }
