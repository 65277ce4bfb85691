-- ===== src/Sorting.antt =====
-- Python's stable `sorted` and `list.sort`, from the test `<` on the keys, and the order of tuples.
mod Laws
pub mod Perms
pub mod Keys
pub use Laws.*
unfoldable pub use Defs.*
mod Defs
