-- ===== src/Tree.antt =====
-- The operation trees of parser/cc/tree.cc and tree.hh: terms stored once each in a vector, built
-- with simplification, and differentiated.
mod Data
mod Build
mod Derive
mod Substitute
mod Select
mod Nularify
pub mod Invariant
pub mod Growth
pub mod Meaning
pub mod Simplify
pub mod Shortcuts
pub mod Binary
pub mod Rules
pub mod Derivative
pub mod Nulary
pub mod Incidence
pub mod Exact
pub mod Kept
pub mod Dual
pub mod Vanish
pub mod DualTotal
pub mod Calculus
pub mod QuotientPower
pub mod Textbook
pub mod Registered
pub mod Derived
pub mod Sound
pub mod NularyIncidence
pub mod NularyExact
pub mod Reachable
pub mod Sharing
pub mod Operands
pub mod Substitution
pub mod Nularised
pub mod Selection
pub mod Evaluate
pub mod Cache
pub mod Evaluation
pub mod Assign
pub mod Convert
pub mod Lead
pub mod Grammar
pub mod Precedence
pub mod Converted
pub mod Format
pub mod Assignments
pub mod Formatted
pub mod FormatTests
pub mod ConvertTests
pub mod EvalTests
pub mod DerivedTests
pub mod Tests
pub mod SubtermTests
unfoldable pub use Data.*
unfoldable pub use Build.*
unfoldable pub use Derive.*
unfoldable pub use Substitute.*
unfoldable pub use Select.*
unfoldable pub use Nularify.*
