-- ===== src/Unittest/Fake/KeyValue.antt =====
-- unittest/src/fake/key_value/mod.rs. The driver's cells and the memory of the process are at places of
-- the state outside the kernel. A `String` is the list of its bytes.
pub mod Stores
use libtock_rs.Common.{
  ℕ, ◌^◌, ◌%◌, ◌==◌, if◌then◌else◌, Option, none, some, List, [], length, take, min, Result, ok,
  err, returns, panic,
}
use libtock_rs.Common.Bytes.{Bytes, is_utf8}
use libtock_rs.Common.Bytes as Db
use libtock_rs.Platform.ErrorCode.{ErrorCode, as_u32, invalid, no_support}
use libtock_rs.Platform.CommandReturn.{CommandReturn}
use libtock_rs.Platform.AsyncCall.{Place}
use libtock_rs.Unittest.AllowDb.{AllowBuffer, default_buffer}
use libtock_rs.Unittest.CommandReturn.{success, failure}
use libtock_rs.Unittest.KernelData.{DriverInfo}
use libtock_rs.Unittest.Memory.{Memory, bytes, copy_to}
use libtock_rs.Unittest.World.{World, M, ◌>>=◌, ◌>>◌, pure}
use libtock_rs.Unittest.ShareData.{schedule_upcall, expected}

-- `HashMap<String, String>`
abbrev pub Database : Type 0
Database = List (Bytes × Bytes)

pub record KeyValue : Type 0 where
  pub buffer_in_key : AllowBuffer
  pub buffer_in_val : AllowBuffer
  pub buffer_out_val : AllowBuffer
  pub share_ref : ℕ
  pub database : Database

abbrev pub new : KeyValue
new = record {
  buffer_in_key = default_buffer;
  buffer_in_val = default_buffer;
  buffer_out_val = default_buffer;
  share_ref = 0;
  database = [];
}

abbrev pub info : DriverInfo
info = record { driver_num = 327683; upcall_count = 1 }

-- `str::from_utf8(…).unwrap()`
abbrev pub with_str : {H A : Type 0} → Bytes → M H A → M H A
with_str b m = if is_utf8 b then m else panic

module _ {H : Type 0} (place : Place H KeyValue) (memory : Place H Memory) where
  abbrev pub store : KeyValue → World H → World H
  store s w = record w { host = place.put s w.host }

  abbrev pub register : ℕ → M H (Unit {0})
  register share_ref w = returns (tt, store (record (place.get w.host) { share_ref = share_ref }) w)

  unfoldable pub allow_readonly :
      ℕ → AllowBuffer → M H (Result AllowBuffer (AllowBuffer × ErrorCode))
  allow_readonly buffer_num buffer w =
      let s = place.get w.host in
      if buffer_num == 0
      then returns (ok s.buffer_in_key, store (record s { buffer_in_key = buffer }) w)
      else if buffer_num == 1
      then returns (ok s.buffer_in_val, store (record s { buffer_in_val = buffer }) w)
      else returns (err (buffer, invalid), w)

  unfoldable pub allow_readwrite :
      ℕ → AllowBuffer → M H (Result AllowBuffer (AllowBuffer × ErrorCode))
  allow_readwrite buffer_num buffer w =
      let s = place.get w.host in
      if buffer_num == 0
      then returns (ok s.buffer_out_val, store (record s { buffer_out_val = buffer }) w)
      else returns (err (buffer, invalid), w)

  -- `schedule_upcall(…).expect(…)` with a status and a length.
  abbrev pub tell : KeyValue → ℕ → ℕ → M H (Unit {0})
  tell s status len = schedule_upcall s.share_ref 0 (status, len, 0) >>= expected

  -- `self.database.replace(db)`
  abbrev pub replace : KeyValue → Database → M H (Unit {0})
  replace s db w = returns (tt, store (record s { database = db }) w)

  -- The bytes that fit go into the buffer of the value.
  abbrev pub copy_value : KeyValue → Bytes → M H (Unit {0})
  copy_value s val w =
      let cp_len = min s.buffer_out_val.len (length val) in
      returns (
        tt,
        record w {
          host =
              memory.put (copy_to s.buffer_out_val.address (take cp_len val) (memory.get w.host))
                w.host;
        },
      )

  -- The matches on `db.get(k_str)` and `db.remove(k_str)`.
  abbrev pub get_match : KeyValue → Option Bytes → M H (Unit {0})
  get_match s (some val) = do copy_value s val; tell s 0 (length val % 2 ^ 32)
  get_match s none = tell s (as_u32 no_support) 0

  abbrev pub add_match : KeyValue → Bytes → Bytes → Option Bytes → M H (Unit {0})
  add_match s k v (some _) = tell s (as_u32 no_support) 0
  add_match s k v none = do replace s (Db.insert k v s.database); tell s 0 0

  abbrev pub update_match : KeyValue → Bytes → Bytes → Option Bytes → M H (Unit {0})
  update_match s k v (some _) = do replace s (Db.insert k v s.database); tell s 0 0
  update_match s k v none = tell s (as_u32 no_support) 0

  abbrev pub delete_match : KeyValue → Bytes → Option Bytes → M H (Unit {0})
  delete_match s k (some _) = do replace s (Db.remove k s.database); tell s 0 0
  delete_match s k none = tell s (as_u32 no_support) 0

  -- The arms of the commands behind the conversions, for a state of the driver, a key and a value.
  unfoldable pub get : KeyValue → Bytes → M H (Unit {0})
  unfolding as_u32
  get s k = get_match s (Db.get k s.database)

  unfoldable pub set : KeyValue → Bytes → Bytes → M H (Unit {0})
  set s k v = do replace s (Db.insert k v s.database); tell s 0 0

  unfoldable pub add : KeyValue → Bytes → Bytes → M H (Unit {0})
  unfolding as_u32
  add s k v = add_match s k v (Db.get k s.database)

  unfoldable pub update : KeyValue → Bytes → Bytes → M H (Unit {0})
  unfolding as_u32
  update s k v = update_match s k v (Db.get k s.database)

  unfoldable pub delete : KeyValue → Bytes → M H (Unit {0})
  unfolding as_u32
  delete s k = delete_match s k (Db.get k s.database)

  -- The arm of a command with a key, and that of one with a key and a value.
  abbrev pub with_key : (KeyValue → Bytes → M H (Unit {0})) → M H CommandReturn
  with_key arm w =
      let s = place.get w.host in
      let k = bytes (memory.get w.host) s.buffer_in_key in (with_str k (arm s k) >> pure success) w

  abbrev pub with_pair : (KeyValue → Bytes → Bytes → M H (Unit {0})) → M H CommandReturn
  with_pair arm w =
      let s = place.get w.host in
      let k = bytes (memory.get w.host) s.buffer_in_key in
      let v = bytes (memory.get w.host) s.buffer_in_val in
      (with_str k (with_str v (arm s k v)) >> pure success) w

  unfoldable pub command : ℕ → ℕ → ℕ → M H CommandReturn
  unfolding get set add update delete bytes is_utf8
  command command_id argument0 argument1 w =
      if command_id == 0
      then returns (success, w)
      else if command_id == 1
      then with_key get w
      else if command_id == 2
      then with_pair set w
      else if command_id == 4
      then with_pair add w
      else if command_id == 5
      then with_pair update w
      else if command_id == 3
      then with_key delete w
      else returns (failure no_support, w)
