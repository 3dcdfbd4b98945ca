-- ===== src/Lib.antt =====
-- Dynare++ solves economic models by perturbation. This library is about the exact parts of its C++
-- code: the combinatorial tables and index arithmetic of the tensor library, with the equivalences,
-- permutations and symmetries of its Faa di Bruno formula, and the hash-consed operation tree in which
-- the parser keeps the equations of a model and their derivatives, evaluates and prints them, with the
-- tables of the names and lags of its variables.
--
-- Parts and files:
--   Base      errors, results, Boolean tests, and lists as arrays.
--   Pascal    dynare++/utils/cc/pascal_triangle.cc and .hh: `PascalRow`, and the namespace
--             `PascalTriangle` with its growing global table `tr`, which each call takes and returns.
--             `ensure` and `noverk` have the names of the source. The mutex guards the table, and the
--             model is of calls one after another.
--   Sequence  dynare++/tl/cc/int_sequence.cc and .hh: `IntSequence`. `unfold` is `unfold_by`, and
--             operator== and operator< are `equal` and `lexicographic`. `noverseq` calls `noverk`.
--   Tensor    dynare++/tl/cc/tensor.cc: the static methods of `UTensor` (`increment`, `decrement`,
--             `get_offset`, and those for one bound ending in `_full`) and of `FTensor`
--             (`folded_decrement`, `folded_offset`), which call `IntSequence` and `noverk`.
--             Tensor/Dimens has the index steps of `FFSTensor`, dynare++/tl/cc/fs_tensor.cc, and
--             `TensorDimens`, dynare++/tl/cc/gs_tensor.cc and .hh, whose constructors are `dimens`,
--             `full_dimens` and `slice`; Tensor/Sizes is about `calcMaxOffset`, and Tensor/Places and
--             Tensor/Blocks about `calcFoldOffset` and `calcFoldMaxOffset`. Tensor/Rank has the place of
--             a folded index, which Tensor/Folded relates to `getOffset`, Tensor/Decrement to
--             `decrement`, and Tensor/Apart to the places of other indices.
--   IntPower  dynare++/utils/cc/int_power.cc: `power`, with the overflow of `int` as an error.
--   Permutation
--             dynare++/tl/cc/permutation.cc and .hh: `Permutation`, whose constructors from two
--             permutations and from a place are `compose` and `extend`; in Permutation/Sorting the one
--             from a sequence, with `std::sort` as a parameter; in Permutation/Sets those from
--             equivalences, `PermutationSet` and `PermutationBundle`. The proofs on sets are in
--             Permutation/Complete, Permutation/Bundle and Permutation/Preserving.
--   Symmetry  dynare++/tl/cc/symmetry.cc and .hh: `Symmetry` (`find_class`, `is_full`, and `implied` for
--             the constructor from a class of an equivalence) and `symiterator`, whose operator++ is
--             `next`. Symmetry/Order and Symmetry/Next are about the order of the iteration.
--             Symmetry/Induced has `InducedSymmetries`, over an equivalence of the indices, and
--             Symmetry/Shares is about what each of them gets of the symmetry.
--   Equivalence
--             dynare++/tl/cc/equivalence.cc and .hh: `OrdSequence`, a list of items; `Equivalence`, whose
--             constructors are `finest`, `coarsest` and `glue`; and in Equivalence/Sets `EquivalenceSet`
--             and `EquivalenceBundle`. Equivalence/Partition has the invariant, and the proofs are in
--             Equivalence/Counts, Equivalence/Glue, Equivalence/Trace, Equivalence/Grown and
--             Equivalence/Members. `place_behind` is where an iterator into the list points after an
--             erasure.
--   Tree      dynare++/parser/cc/tree.cc and .hh: `OperationTree`. Tree/Data has the state, Tree/Build
--             the constructor and the terms (`add_nulary`, `add_unary`, `add_binary`), Tree/Derive the
--             derivatives, Tree/Nularify the change of a term to a nulary one, Tree/Substitute and
--             Tree/Select substitution and selection (`select_into` and `select_inv_into` are the
--             private overloads). The proofs: Tree/Invariant, Tree/Growth and Tree/Nulary for the state,
--             Tree/Incidence, Tree/Exact and Tree/Kept for the sets `nul_incidence`, with
--             Tree/NularyIncidence and Tree/NularyExact for their update by `nularify`, Tree/Meaning for
--             the value of a term, Tree/Simplify, Tree/Shortcuts and Tree/Binary for the quick exits,
--             Tree/Rules and Tree/Derivative for the success of `add_derivative`; Tree/Dual has the
--             rules of calculus, with Tree/Vanish and Tree/DualTotal, and Tree/Calculus,
--             Tree/QuotientPower, Tree/Textbook and Tree/Derived compare the terms that `add_derivative`
--             makes with them, with Tree/Registered for its maps; Tree/Sound and Tree/Reachable are
--             about the states that calls lead to, Tree/Sharing about repeated calls. Then
--             Tree/Substitution, Tree/Selection and Tree/Nularised. Tree/Evaluate has `EvalTree`; its
--             proofs are in Tree/Cache, Tree/Evaluation and Tree/Assign. Tree/Convert has
--             `OperationStringConvertor`, Tree/Grammar the expressions of dynare++/parser/cc/formula.yy
--             and formula.ll with their precedences and values, and Tree/Precedence and Tree/Converted
--             the proof that relates them. Tree/Format has `DefaultOperationFormatter`, and
--             Tree/Assignments and Tree/Formatted are about the order of what it prints.
--   Atoms     dynare++/parser/cc/dynamic_atoms.cc and .hh: in Atoms/Dynamic `DynamicAtoms` (`index` is
--             `index_of`, and `name` is `atom_name`) and the insertion of `NameStorage`; Atoms/Map has
--             what they use of `std::map`. Atoms/Consistent has the invariant; Atoms/Added and
--             Atoms/Assigned are about `assign_variable`, Atoms/Removed, Atoms/Span and
--             Atoms/Unassigned about `unassign_variable`, and Atoms/Names about `lead`.
--             Atoms/Constants has `Constants` (`is_constant_index` for `is_constant`), and
--             Atoms/Imported is about its import, which adds terms to a tree with `add_nulary`. The tree
--             indices that the tables hold are those of nulary terms of an `OperationTree`.
--
-- Numbers. Items of sequences, offsets, coefficients and indices of terms are natural numbers. The sums
-- of `PascalRow::prolong` and of `FTensor::getOffsetRecurse`, and the sums and products of `noverseq`, of the
-- offsets in Tensor/Dimens and of `power`, raise the error `overflow` where they reach 2^31, and the
-- theorems on them state how large the triangle of coefficients may become. The other sums of `int`,
-- those of sizes, places and counts and of the offsets of unfolded tensors, are not bounded. Where the source makes -1, or reads or writes outside an array,
-- the model returns an error; so do the exceptions of the source. Where the source takes the value -1
-- for an absent operand, the operation has fewer operands.
--
-- Recursion. `getOffsetRecurse` is on fuel, one for each coordinate, and each call drops a coordinate or
-- more. `add_derivative` is on fuel t + 1 for a term t: operands have smaller indices than their term;
-- so are `add_substitution`, `select_terms`, `eval`, `convert` and `format`. `power` is on fuel, one for
-- each bit of the exponent, and b is enough for an exponent b. The constructor of EquivalenceSet is on
-- fuel, one for each equivalence that it takes from its list: `potential n` is enough for n classes, as
-- a glued equivalence has one class less, and one with k + 1 classes has at most (k + 1) * (k + 1) of
-- them.
--
-- Exceptions. The tests of TL_RAISE_IF are taken to be on; the build switches them off where TL_DEBUG is
-- 0, and then what fails in the model is undefined behaviour. The model has no state after an exception.
--
-- Equivalences. A class is compared with another by its average; the model compares the fractions, which
-- have the order of their quotients in `double` for sums and sizes of a few thousand.
--
-- Evaluation. The operations on `double` are a parameter, `Floats`. `IsExact` states that they agree with
-- an `Arithmetic` where that is defined, which rounding does not, so that the theorem on `eval` is about
-- its caching, its order and its quick exits and not about rounding.
--
-- The operation tree. A hash map is an association list, and a set of indices a list; the order of
-- either is not observed. Codes are split by their number of operands, as every caller pairs them. C++
-- leaves the order of evaluating two arguments open, which the quotient rule depends on for the indices
-- of new terms; the model goes from left to right. The value of a term is taken in an `Arithmetic`, a
-- record of partial functions with the laws that the quick exits rely on: real numbers with 0 ^ 0
-- undefined have them, and so has the field of two elements in Tree/Tests. The rules of calculus in
-- Tree/Dual give a derivative where each of their parts is defined; that of a power takes the logarithm
-- of its base. A quick exit may make a term
-- defined where the operation is not, as x / x at 0; the theorems are about the values where the
-- operation is defined.
--
-- Atoms. Names, and numbers of type `double`, are the values of ordered types; `parse_variable`, which a
-- subclass defines, and `std::stod` are parameters. A lag is an `int`, and stands in the model as its distance from the least one. A number of
-- variables below 0 is not modelled: `nv` stops at 0.
--
-- Printing. A stream is the text written to it. The names of atoms and the decimals of numbers are
-- parameters; the theorem on `convert` takes the texts of atoms to be read as their values, and the sums
-- of the arithmetic to be associative, as the program prints a + (b - c) without parentheses. It leaves
-- out functions of a nulary term that is printed as an integer: the scanner takes the longest match, and
-- reads `exp(1)` as a name with a lead. Tree/Lead has this suffix of names. `diff` is not modelled.
--
-- Not modelled: the storage and arithmetic of matrices of doubles; the prints for debugging; of
-- dynare++/parser/cc the other grammars, the scanners, and of the atoms the orderings and the
-- subclasses of `DynamicAtoms`; dynare++/integ, dynare++/kord,
-- dynare++/sylv and dynare++/src; mex, matlab, and the preprocessor, a submodule.
pub mod Atoms
pub mod Base
pub mod Equivalence
pub mod IntPower
pub mod Pascal
pub mod Permutation
pub mod Sequence
pub mod Symmetry
pub mod Tensor
pub mod Tree
