-- ===== src/Unittest/AllowDb/Defs.antt =====
-- unittest/src/allow_db.rs: the database of buffers and its operations.
use libtock_rs.Common.{
  ℕ, ◌+◌, Option, none, some, List, [], ◌∷◌, ◌==◌, ltb, if◌then◌else◌, Result, ok, err,
}

-- The entries (address, length).
abbrev pub Buffers : Type 0
Buffers = List (ℕ × ℕ)

-- `BTreeMap::insert`, which overwrites the value of a present key.
unfoldable pub insert : ℕ → ℕ → Buffers → Buffers
insert a n [] = (a, n) ∷ []
insert a n ((b, l) ∷ m) =
    if ltb a b then (a, n) ∷ (b, l) ∷ m else if a == b then (a, n) ∷ m else (b, l) ∷ insert a n m

-- `BTreeMap::remove`
unfoldable pub remove : ℕ → Buffers → Buffers
remove a [] = []
remove a ((b, l) ∷ m) = if a == b then m else (b, l) ∷ remove a m

abbrev pub or_else : ℕ × ℕ → Option (ℕ × ℕ) → Option (ℕ × ℕ)
or_else e none = some e
or_else e (some e') = some e'

-- `buffers.range(..range_end).next_back()`: the last entry whose key is below the end.
unfoldable pub last_below : ℕ → Buffers → Option (ℕ × ℕ)
last_below range_end [] = none
last_below range_end ((b, l) ∷ m) =
    if ltb b range_end then or_else (b, l) (last_below range_end m) else none

pub data OverlapError : Type 0 where
  overlap_error : OverlapError

unfoldable pub insert_raw : ℕ → ℕ → Buffers → Result Buffers OverlapError
insert_raw address len buffers = elim (last_below (address + len) buffers) [
  | none ↦ ok (insert address len buffers)
  | some (b, l) ↦ if ltb address (b + l) then err overlap_error else ok (insert address len buffers)
]

-- `RoAllowBuffer` and `RwAllowBuffer`: what a driver holds of a shared buffer.
pub record AllowBuffer : Type 0 where
  pub address : ℕ
  pub len : ℕ

-- `RoAllowBuffer::default`, `RwAllowBuffer::default`
abbrev pub default_buffer : AllowBuffer
default_buffer = record { address = 0; len = 0 }

unfoldable pub insert_ro_buffer : ℕ → ℕ → Buffers → Result (AllowBuffer × Buffers) OverlapError
insert_ro_buffer address len buffers =
    if len == 0
    then ok (record { address = address; len = len }, buffers)
    else elim (insert_raw address len buffers) [
      | ok buffers' ↦ ok (record { address = address; len = len }, buffers')
      | err e ↦ err e
    ]

unfoldable pub insert_rw_buffer : ℕ → ℕ → Buffers → Result (AllowBuffer × Buffers) OverlapError
insert_rw_buffer address len buffers =
    if len == 0
    then ok (record { address = address; len = len }, buffers)
    else elim (insert_raw address len buffers) [
      | ok buffers' ↦ ok (record { address = address; len = len }, buffers')
      | err e ↦ err e
    ]

-- The registers of the buffer, and the database without it.
unfoldable pub remove_ro_buffer : AllowBuffer → Buffers → (ℕ × ℕ) × Buffers
remove_ro_buffer buffer buffers = ((buffer.address, buffer.len), remove buffer.address buffers)

unfoldable pub remove_rw_buffer : AllowBuffer → Buffers → (ℕ × ℕ) × Buffers
remove_rw_buffer buffer buffers = ((buffer.address, buffer.len), remove buffer.address buffers)
