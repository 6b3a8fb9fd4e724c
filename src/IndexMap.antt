-- ===== src/IndexMap.antt =====
-- The `IndexMap` and `IndexSet` of the crate indexmap, as the program uses them.
mod Sets
mod Maps
pub use Sets.*
pub use Maps.*
unfoldable pub use Sets.{contains, insert_set, from_iter_onto, remove}
unfoldable pub use Maps.{get, insert, shift_remove, contains_key, keys, values, extend}
