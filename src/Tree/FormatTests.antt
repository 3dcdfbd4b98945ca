-- ===== src/Tree/FormatTests.antt =====
-- The assignments printed for a small tree.
use Prim.Native.String.{String}
use dynare.Base.{ℕ, zero, suc, ◌≡◌, refl, [], ◌∷◌, true, ok, arith}
use dynare.Tree.{binary, times, has, insert}
use dynare.Tree.Evaluate.{is_nulary}
use dynare.Tree.Convert.{unary_name, binary_name}
use dynare.Tree.Format.{
  Formatter, format, format_new, format_operands, format_unless_nulary, print_statement, right_side,
  format_operand, format_term, format_nulary, print_delim,
}
use dynare.Tree.Assignments.{Formats, Agrees}
use dynare.Tree.Formatted.{format-Formats}
use dynare.Tree.Tests.{product_tree, product_tree-IsTree}

-- Numbers up to six.
abbrev decimal : ℕ → String
decimal zero = "0"
decimal (suc zero) = "1"
decimal (suc (suc zero)) = "2"
decimal (suc (suc (suc zero))) = "3"
decimal (suc (suc (suc (suc zero)))) = "4"
decimal (suc (suc (suc (suc (suc zero))))) = "5"
decimal (suc (suc (suc (suc (suc (suc t)))))) = "6"

abbrev fresh : Formatter
fresh = record { stop_set = []; os = "" }

format_run :
    format product_tree decimal 7 (binary times 4 5) 6 fresh
    ≡ ok (record { stop_set = 6 ∷ 5 ∷ []; os = "$5 = exp($4);\n$6 = $4 * $5;\n" })
unfolding format format_new format_operands format_unless_nulary print_statement right_side
    format_operand format_term format_nulary print_delim is_nulary unary_name binary_name has insert
format_run = refl

fresh-Agrees : Agrees product_tree decimal 7 fresh []
fresh-Agrees k l = refl

format-Formats_example :
    Formats product_tree decimal
      (format product_tree decimal 7 (binary times 4 5) 6 fresh)
      fresh
      []
      7
      (λ d. has 6 d ≡ true)
format-Formats_example =
    format-Formats product_tree decimal product_tree-IsTree 7 (binary times 4 5) 6 fresh [] refl
      (omega arith) fresh-Agrees
