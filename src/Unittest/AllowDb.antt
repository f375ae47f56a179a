-- ===== src/Unittest/AllowDb.antt =====
-- unittest/src/allow_db.rs: the active Allow buffers of the fake kernel, none of which overlap.
--
-- `BTreeMap<*mut u8, NonZeroUsize>` is the list of its entries in the order of the keys. An address
-- is a number; `address.add(len)` is a sum, which does not overflow by the functions' safety
-- requirement that address and length describe a valid slice.
mod Defs
pub mod Overlap
pub mod Insert
pub mod Remove
unfoldable pub use Defs.*
