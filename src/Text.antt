-- ===== src/Text.antt =====
-- `std::string` and `std::string_view`: the searches and slices that the program makes.
mod Equality
mod Search
unfoldable pub use Equality.*
unfoldable pub use Search.*
