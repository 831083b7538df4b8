-- ===== src/Binary.antt =====
-- Bytes and the parts of Go's package encoding/binary that the code calls: unsigned varints and
-- big-endian words. A byte slice is a list of numbers.
mod Laws
pub use Laws.*
unfoldable pub use Defs.{append_uvarint, put_uvarint, uvarint, be16, get_be16, be64, get_be64}
unfoldable pub use Defs.{uvarint_groups, uvarint_from}
pub use Defs.{Bytes, IsByte, IsU16, IsU64}
mod Defs
