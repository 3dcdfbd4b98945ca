-- ===== src/Tree/Formatted.antt =====
-- The assignments that `format` prints: none twice, and each behind those of its operands.
use Prim.Native.String.{String, ◌++◌}
use dynare.Base.{
  ℕ, zero, suc, ◌+◌, ◌≤◌, ◌<◌, ◌≡◌, refl, sym, ◌∙◌, subst, List, [], ◌∷◌, some, true, false, Result,
  ok, ◌>>=◌, arith, at-of, get_elem?, get_elem?_lt, get_elem?_of_lt, ◌==◌, ◌||◌, Bool-cases, inl,
  inr,
}
use dynare.Tree.{Operation, nulary, unary, binary, OperationTree, has, insert}
use dynare.Tree.Convert.{unary_name, binary_name}
use dynare.Tree.Invariant.{IsTree}
use dynare.Tree.Evaluate.{is_nulary}
use dynare.Tree.Format.{
  Formatter, format_term, format_nulary, print_delim, format_operand, right_side, print_statement,
  format_unless_nulary, format_operands, format_new, format,
}
use dynare.Tree.Assignments.{
  after, joined, has-after, has-joined, after-joined, has-append, has-insert, IsReady,
  OperandsReady, Ordered-joined, Wrote-joined, Formats, Agrees, IsReady-after,
}

module _ (otree : OperationTree) (decimal : ℕ → String) where
  -- What the recursive calls do for the operands below `bound`.
  abbrev pub Calls : (Operation → ℕ → Formatter → Result Formatter) → ℕ → Type 0
  Calls f bound =
      (op : Operation) (i : ℕ) (s : Formatter) (done : List ℕ)
      → get_elem? otree.terms i ≡ some op
      → i < bound
      → Agrees otree decimal (i + 1) s done
      → Formats otree decimal (f op i s) s done (i + 1) (λ d. has i d ≡ true)

  none_written :
      (s : Formatter) (done : List ℕ) (bound : ℕ) (P : List ℕ → Type 0)
      → P done
      → Formats otree decimal (ok s) s done bound P
  unfolding has
  none_written s done bound P p = record {
    state = s;
    terms = [];
    returns = refl;
    below = λ k e. cc;
    in_order = tt;
    wrote = refl;
    stops = λ k. ground arith;
    reached = p;
  }

  module _ (f : Operation → ℕ → Formatter → Result Formatter) (bound : ℕ)
      (calls : Calls f bound) where
    operand_Formats :
        (op : Operation) (i : ℕ) (s : Formatter) (done : List ℕ)
        → get_elem? otree.terms i ≡ some op
        → i < bound
        → Agrees otree decimal bound s done
        → Formats otree decimal
            (format_unless_nulary otree decimal f op i s)
            s
            done
            bound
            (λ d. IsReady otree decimal d i)
    unfolding format_unless_nulary is_nulary
    operand_Formats nulary i s done g l h =
        none_written s done bound (λ d. IsReady otree decimal d i) (inl g)
    operand_Formats (unary code j) i s done g l h =
        let r = calls (unary code j) i s done g l (λ k m. h k (omega arith)) in
        record {
          state = r.state;
          terms = r.terms;
          returns = r.returns;
          below = λ k e. omega (arith, r.below k e);
          in_order = r.in_order;
          wrote = r.wrote;
          stops = r.stops;
          reached = inr r.reached;
        }
    operand_Formats (binary code j m) i s done g l h =
        let r = calls (binary code j m) i s done g l (λ k m. h k (omega arith)) in
        record {
          state = r.state;
          terms = r.terms;
          returns = r.returns;
          below = λ k e. omega (arith, r.below k e);
          in_order = r.in_order;
          wrote = r.wrote;
          stops = r.stops;
          reached = inr r.reached;
        }

    operands_Formats :
        (op : Operation) (s : Formatter) (done : List ℕ)
        → IsTree otree
        → (t : ℕ) → get_elem? otree.terms t ≡ some op
        → t ≤ bound
        → Agrees otree decimal bound s done
        → Formats otree decimal
            (format_operands otree decimal f op s)
            s
            done
            bound
            (λ d. OperandsReady otree decimal d op)
    unfolding format_operands
    operands_Formats nulary s done w t g l h = none_written s done bound (λ d. Unit) tt
    operands_Formats (unary code i) s done w t g l h =
        let below = w.ordered t (unary code i) g in
        let (op1, g1) =
          get_elem?_of_lt otree.terms i
            (omega (arith, below, get_elem?_lt otree.terms t (unary code i) g)) in
        let r = operand_Formats op1 i s done g1 (omega (arith, below)) h in
        record {
          state = r.state;
          terms = r.terms;
          returns = rw (at-of otree.terms i op1 g1) r.returns;
          below = r.below;
          in_order = r.in_order;
          wrote = r.wrote;
          stops = r.stops;
          reached = r.reached;
        }
    operands_Formats (binary code i j) s done w t g l h =
        let below = w.ordered t (binary code i j) g in
        let inside = get_elem?_lt otree.terms t (binary code i j) g in
        let (op1, g1) = get_elem?_of_lt otree.terms i (omega (arith, below.0)) in
        let (op2, g2) = get_elem?_of_lt otree.terms j (omega (arith, below.1)) in
        let r = operand_Formats op1 i s done g1 (omega (arith, below.0)) h in
        let q =
          operand_Formats op2 j r.state (after done r.terms) g2 (omega (arith, below.1))
            (λ k m. ground (arith, r.stops k, h k m, has-after k done r.terms)) in
        record {
          state = q.state;
          terms = joined r.terms q.terms;
          returns =
              rw (at-of otree.terms i op1 g1, at-of otree.terms j op2 g2, r.returns) q.returns;
          below = λ k e. elim (Bool-cases (has k r.terms)) [
            | inl b ↦ r.below k b
            | inr b ↦ q.below k (ground (arith, has-joined k r.terms q.terms))
          ];
          in_order = Ordered-joined otree decimal done r.terms q.terms r.in_order q.in_order;
          wrote =
              Wrote-joined otree decimal s.os r.state.os q.state.os r.terms q.terms r.wrote q.wrote;
          stops = λ k. ground (arith, q.stops k, r.stops k, has-joined k r.terms q.terms);
          reached =
              subst (λ d. IsReady otree decimal d i × IsReady otree decimal d j)
                (sym (after-joined done r.terms q.terms))
                (IsReady-after otree decimal i (after done r.terms) q.terms r.reached, q.reached);
        }

  right_side-total :
      IsTree otree
      → (t : ℕ) (op : Operation) → get_elem? otree.terms t ≡ some op
      → (rhs : String) × (right_side otree decimal op t ≡ ok rhs)
  unfolding right_side
  right_side-total w t nulary g = (format_nulary otree decimal t, refl)
  right_side-total w t (unary code i) g =
      let below = w.ordered t (unary code i) g in
      let (op1, g1) =
        get_elem?_of_lt otree.terms i
          (omega (arith, below, get_elem?_lt otree.terms t (unary code i) g)) in
      (
        unary_name code ++ ("(" ++ (format_operand otree decimal op1 i ++ ")")),
        rw (at-of otree.terms i op1 g1) refl,
      )
  right_side-total w t (binary code i j) g =
      let below = w.ordered t (binary code i j) g in
      let inside = get_elem?_lt otree.terms t (binary code i j) g in
      let (op1, g1) = get_elem?_of_lt otree.terms i (omega (arith, below.0)) in
      let (op2, g2) = get_elem?_of_lt otree.terms j (omega (arith, below.1)) in
      (
        format_operand otree decimal op1 i
            ++ (" " ++ (binary_name code ++ (" " ++ format_operand otree decimal op2 j))),
        rw (at-of otree.terms i op1 g1, at-of otree.terms j op2 g2) refl,
      )

  print_statement-total :
      IsTree otree
      → (t : ℕ) (op : Operation) → get_elem? otree.terms t ≡ some op
      → (statement : String) × (print_statement otree decimal op t ≡ ok statement)
  unfolding print_statement
  print_statement-total w t op g =
      let (rhs, e) = right_side-total w t op g in
      (format_term otree decimal t ++ (" = " ++ (rhs ++ print_delim otree decimal)), rw e refl)

  -- The assignment of the term itself, behind those of its operands.
  finished :
      IsTree otree
      → (n : Result Formatter) (op : Operation) (t : ℕ) (s : Formatter) (done : List ℕ)
      → get_elem? otree.terms t ≡ some op
      → has t done ≡ false
      → Formats otree decimal n
          (record s { stop_set = insert t s.stop_set })
          done
          t
          (λ d. OperandsReady otree decimal d op)
      → Formats otree decimal
          (do
            s' ← n
            statement ← print_statement otree decimal op t
            ok (record s' { os = s'.os ++ statement }))
          s
          done
          (t + 1)
          (λ d. has t d ≡ true)
  finished w n op t s done g undone r =
      let (statement, printed) = print_statement-total w t op g in
      let member : (k : ℕ) → has k (joined r.terms (t ∷ [])) ≡ (t == k || has k r.terms) =
        λ k. has-append k t r.terms in
      let itself : has t (joined r.terms (t ∷ [])) ≡ true = ground (arith, member t) in
      record {
        state = record r.state { os = r.state.os ++ statement };
        terms = joined r.terms (t ∷ []);
        returns = rw (r.returns, printed) refl;
        below = λ k e. elim (Bool-cases (has k r.terms)) [
          | inl c ↦ omega (arith, r.below k c)
          | inr c ↦ ground (arith, member k)
        ];
        in_order =
            Ordered-joined otree decimal done r.terms (t ∷ []) r.in_order
              (ground (arith, has-after t done r.terms, r.below t), (op, g, r.reached), tt);
        wrote =
            Wrote-joined otree decimal s.os r.state.os (r.state.os ++ statement) r.terms (t ∷ [])
              r.wrote (op, statement, g, printed, refl);
        stops = λ k. ground (arith, member k, r.stops k, has-insert k t s.stop_set);
        reached = ground (arith, has-after t done (joined r.terms (t ∷ [])));
      }

  -- In a tree that meets the invariant, where the set of the formatter holds of the terms up to t exactly
  -- those of `done`, `format` of t ends within t + 1 nested calls and raises nothing: it appends the
  -- assignments of terms up to t that are not done, none twice, each behind those of its operands that
  -- are not nulary; the set is extended by these terms, and t is then done.
  pub format-Formats :
      IsTree otree
      → (fuel : ℕ) (op : Operation) (t : ℕ) (s : Formatter) (done : List ℕ)
      → get_elem? otree.terms t ≡ some op
      → t < fuel
      → Agrees otree decimal (t + 1) s done
      → Formats otree decimal
          (format otree decimal fuel op t s)
          s
          done
          (t + 1)
          (λ d. has t d ≡ true)
  unfolding format format_new
  format-Formats w zero op t s done g l h = absurd (omega arith)
  format-Formats w (suc fuel) op t s done g l h = elim (Bool-cases (has t s.stop_set)) [
    | inl b ↦ rw b (none_written s done (t + 1) (λ d. has t d ≡ true) (sym (h t (omega arith)) ∙ b))
    | inr b ↦
        let calls : Calls (λ o i u. format otree decimal fuel o i u) t =
          λ o i u d g' l' h'. format-Formats w fuel o i u d g' (omega arith) h' in
        let s0 : Formatter = record s { stop_set = insert t s.stop_set } in
        rw b (
          finished w
            (format_operands otree decimal (λ o i u. format otree decimal fuel o i u) op s0) op t s
            done g (sym (h t (omega arith)) ∙ b)
            (operands_Formats (λ o i u. format otree decimal fuel o i u) t calls op s0 done w t g
              (omega arith) (λ k m. ground (arith, has-insert k t s.stop_set, h k (omega arith)))))
  ]
