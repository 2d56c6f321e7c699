-- ===== src/Map.antt =====
-- `std::unordered_map<std::string, V>` as an association list. The program never relies on the
-- order of entries. `insert_or_assign` keeps the place of a key that is there.
mod Laws
mod Defs
pub use Laws.*
unfoldable pub use Defs.*
