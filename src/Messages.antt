-- ===== src/Messages.antt =====
-- The packets of the ironwood network, with their methods `size`, `encode` and `decode`. A method
-- `encode` appends to `out`, and `none` is its panic; `none` of a method `decode` is ErrDecode.
pub mod Traffic
pub mod Encoding
pub mod RouterSigReq
pub mod RouterSigRes
pub mod RouterAnnounce
pub mod PathLookup
pub mod PathNotifyInfo
pub mod PathNotify
pub mod PathBroken
