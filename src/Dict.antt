-- ===== src/Dict.antt =====
-- std::unordered_map and std::unordered_set as lists of entries. The order of a list stands for
-- the order of iteration, which C++ leaves open; no key stands twice.
mod Map
mod Sets
mod Loops
unfoldable pub use Map.{insert, erase, erase_if, lookup_or}
pub use Map.{Distinct, lookup-insert, lookup-erase, lookup-erase_if, insert-Distinct}
pub use Map.{insert-All, erase-All, erase-Distinct, erase_if-Distinct, map_laws, keys, values}
unfoldable pub use Sets.{contains, put, remove}
pub use Sets.{contains-put, contains-remove, set_laws}
pub use Loops.{for_each-values}
unfoldable pub use mathlib.Core.List.{lookup}
