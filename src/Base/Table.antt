-- ===== src/Base/Table.antt =====
-- `HashMap<String, V>` as an association list. The hash map leaves its iteration order open; the
-- order of the list stands for it.
mod Defs
mod Laws
mod Sweep
mod Clashes
unfoldable pub use Defs.*
pub use Laws.*
pub use Sweep.*
pub use Clashes.*
