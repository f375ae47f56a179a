-- ===== src/Unittest/Fake/Console.antt =====
-- unittest/src/fake/console/mod.rs. The console's cells and the memory of the process are at places of
-- the state outside the kernel. A `usize` is at least as wide as a `u32`.
pub mod Writes
pub mod Sync
pub mod Reads
use libtock_rs.Common.{
  ℕ, ◌^◌, ◌%◌, ◌==◌, if◌then◌else◌, Bool, true, false, Option, none, some, List, [], ◌++◌, length,
  take, drop, min, Result, ok, err, returns,
}
use libtock_rs.Platform.ErrorCode.{ErrorCode, invalid, no_support}
use libtock_rs.Platform.CommandReturn.{CommandReturn}
use libtock_rs.Platform.AsyncCall.{Place}
use libtock_rs.Unittest.AllowDb.{AllowBuffer, default_buffer}
use libtock_rs.Unittest.CommandReturn.{success, failure}
use libtock_rs.Unittest.KernelData.{DriverInfo}
use libtock_rs.Unittest.Memory.{Memory, bytes, copy_to}
use libtock_rs.Unittest.World.{World, M, ◌>>=◌, ◌>>◌, pure}
use libtock_rs.Unittest.ShareData.{schedule_upcall, expected}

abbrev pub subscribe_write : ℕ
subscribe_write = 1

abbrev pub subscribe_read : ℕ
subscribe_read = 2

pub record Console : Type 0 where
  pub messages : List ℕ
  pub buffer : AllowBuffer
  pub read_buffer : AllowBuffer
  pub input : List ℕ
  pub receiving : Option ℕ
  pub deferred : Bool
  pub share_ref : ℕ

abbrev pub build : List ℕ → Bool → Console
build inputs deferred = record {
  messages = [];
  buffer = default_buffer;
  read_buffer = default_buffer;
  input = inputs;
  receiving = none;
  deferred = deferred;
  share_ref = 0;
}

abbrev pub new_with_input : List ℕ → Console
new_with_input inputs = build inputs false

abbrev pub new : Console
new = new_with_input []

abbrev pub new_deferred : Console
new_deferred = build [] true

abbrev pub info : DriverInfo
info = record { driver_num = 1; upcall_count = 3 }

-- `self.receiving.get().is_some()`
abbrev pub is_receiving : Console → Bool
is_receiving s = elim s.receiving [ none ↦ false | some _ ↦ true ]

-- The clamps of `complete_read`.
abbrev pub clamped : Console → ℕ → ℕ
clamped s count_wanted = min (min count_wanted s.read_buffer.len) (length s.input)

module _ {H : Type 0} (place : Place H Console) (memory : Place H Memory) where
  abbrev pub store : Console → World H → World H
  store s w = record w { host = place.put s w.host }

  abbrev pub modify : (Console → Console) → M H (Unit {0})
  modify f w = returns (tt, store (f (place.get w.host)) w)

  abbrev pub register : ℕ → M H (Unit {0})
  register share_ref = modify (λ s. record s { share_ref = share_ref })

  -- `copy_from_slice` into the read buffer.
  abbrev pub fill : ℕ → List ℕ → M H (Unit {0})
  fill address to_send w =
      returns
        (tt, record w { host = memory.put (copy_to address to_send (memory.get w.host)) w.host })

  -- `complete_read` where a read is outstanding that asked for `count_wanted` bytes.
  abbrev pub deliver : Console → ℕ → M H (Unit {0})
  deliver s count_wanted = do
    modify (λ s. record s { receiving = none; input = drop (clamped s count_wanted) s.input })
    fill s.read_buffer.address (take (clamped s count_wanted) s.input)
    r ←
        schedule_upcall s.share_ref subscribe_read
          (0, length (take (clamped s count_wanted) s.input) % 2 ^ 32, 0)
    expected r

  unfoldable pub complete_read : M H (Unit {0})
  complete_read w = elim (place.get w.host).receiving [
    | none ↦ returns (tt, w)
    | some count_wanted ↦ deliver (place.get w.host) count_wanted w
  ]

  unfoldable pub fire_read : List ℕ → M H (Unit {0})
  unfolding complete_read
  fire_read input = do modify (λ s. record s { input = s.input ++ input }); complete_read

  unfoldable pub take_bytes : M H (List ℕ)
  take_bytes w =
      returns ((place.get w.host).messages, store (record (place.get w.host) { messages = [] }) w)

  unfoldable pub allow_readonly :
      ℕ → AllowBuffer → M H (Result AllowBuffer (AllowBuffer × ErrorCode))
  allow_readonly buffer_num buffer w =
      if buffer_num == 1
      then returns
          (ok (place.get w.host).buffer, store (record (place.get w.host) { buffer = buffer }) w)
      else returns (err (buffer, invalid), w)

  unfoldable pub allow_readwrite :
      ℕ → AllowBuffer → M H (Result AllowBuffer (AllowBuffer × ErrorCode))
  allow_readwrite buffer_num buffer w =
      if buffer_num == 1
      then returns (
        ok (place.get w.host).read_buffer,
        store (record (place.get w.host) { read_buffer = buffer }) w,
      )
      else returns (err (buffer, invalid), w)

  -- The arm of the write command.
  unfoldable pub write : ℕ → M H (Unit {0})
  write argument0 w =
      let s = place.get w.host in
      let size = min s.buffer.len argument0 in
      (schedule_upcall s.share_ref subscribe_write (size % 2 ^ 32, 0, 0) >>= expected) (
        store (record s { messages = s.messages ++ take size (bytes (memory.get w.host) s.buffer) })
          w)

  -- The arm of the read command.
  unfoldable pub read : ℕ → M H (Unit {0})
  unfolding complete_read
  read argument0 w =
      let w' = store (record (place.get w.host) { receiving = some argument0 }) w in
      if (place.get w.host).deferred then returns (tt, w') else complete_read w'

  -- The arm of the abort command.
  unfoldable pub abort : M H (Unit {0})
  abort w =
      let s = place.get w.host in
      elim s.receiving [
        | none ↦ returns (tt, w)
        | some _ ↦
            (schedule_upcall s.share_ref subscribe_read (0, 0, 0) >>= expected)
              (store (record s { receiving = none }) w)
      ]

  unfoldable pub command : ℕ → ℕ → ℕ → M H CommandReturn
  unfolding write read abort
  command command_num argument0 argument1 w =
      if command_num == 0
      then returns (success, w)
      else if command_num == 1
      then (write argument0 >> pure success) w
      else if command_num == 2
      then (read argument0 >> pure success) w
      else if command_num == 3
      then (abort >> pure success) w
      else returns (failure no_support, w)
