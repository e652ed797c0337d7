-- ===== src/Js.antt =====
-- Values of the program's language that the code computes with: unchecked JSON data, texts, and
-- the operations of the runtime on numbers and on the case of letters.
mod Json
mod Platform
mod Text
mod Sort
mod Coerce
mod Uri
pub mod Sorting
pub use Json.*
pub use Platform.*
unfoldable pub use Text.*
unfoldable pub use Sort.*
unfoldable pub use Coerce.*
unfoldable pub use Uri.*
