-- ===== src/Json.antt =====
-- What `json.loads` returns: Python's None, bool, int, float, str, list and dict.
mod Document
mod Access
mod Equality
unfoldable pub use Document.*
unfoldable pub use Access.*
unfoldable pub use Equality.*
