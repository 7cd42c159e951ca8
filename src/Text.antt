-- ===== src/Text.antt =====
-- Go's `string` and the functions of package strings that the program calls. A text is the list of
-- its bytes, as in Go.
pub mod Basic
pub mod Search
pub mod Parts
pub mod Trim
pub mod Case
unfoldable pub use Basic.*
unfoldable pub use Search.*
unfoldable pub use Parts.*
unfoldable pub use Trim.*
unfoldable pub use Case.*
