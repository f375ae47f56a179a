-- ===== src/Tests/Stores.antt =====
-- Tests of unittest/src/fake/key_value/mod.rs, where every byte of memory is the letter `a`.
use libtock_rs.Common.{◌≡◌, refl, true, false, [], ◌∷◌, some, returns, arith}
use libtock_rs.Common.Bytes.{Bytes, is_utf8}
use libtock_rs.Common.Bytes as Db
use libtock_rs.Platform.AsyncCall.{Place}
use libtock_rs.Unittest.CommandReturn.{success}
use libtock_rs.Unittest.KernelData.{KernelData, DriverData, Upcall}
use libtock_rs.Unittest.Memory.{Memory, bytes}
use libtock_rs.Unittest.World.{World}
use libtock_rs.Unittest.Fake.Allows.{shared_buffer}
use libtock_rs.Unittest.Fake.KeyValue.{KeyValue, Database, new, command}
use libtock_rs.Unittest.Fake.KeyValue.Stores.{get_op, number, meaning, Replies, store_refines}
use libtock_rs.Tests.Hosts.{kernel, data'}

abbrev Host : Type 0
Host = KeyValue × Memory

abbrev place : Place Host KeyValue
place = record { get = λ h. h.0; put = λ s h. (s, h.1); get-put = λ s h. refl }

abbrev memory : Place Host Memory
memory = record { get = λ h. h.1; put = λ m h. (h.0, m); get-put = λ m h. refl }

abbrev upcall_9 : Upcall
upcall_9 = record { fn_pointer = some 9; payload = 1 }

abbrev listening : DriverData
listening = record data' { upcalls = (0, upcall_9) ∷ [] }

abbrev listening_kernel : KernelData
listening_kernel = record (kernel 327683) { drivers = (327683, listening) ∷ [] }

abbrev key : Bytes
key = 97 ∷ []

-- The key `a` has the value `bc`; a value of one byte fits into the buffer at 60.
abbrev full : KeyValue
full = record new {
  buffer_in_key = shared_buffer 40 1;
  buffer_out_val = shared_buffer 60 1;
  share_ref = 327683;
  database = (key, 98 ∷ 99 ∷ []) ∷ [];
}

abbrev begin : World Host
begin = record { kernel_data = some listening_kernel; host = (full, λ a. 97) }

store_refines_example :
    (db : Database) × (w' : World Host) × (command place memory (number get_op) 0 0 begin
      ≡ returns (success, w'))
    × Replies place memory listening_kernel listening 9 1 refl
        (omega arith)
        refl
        (λ t x. refl)
        (λ m x. refl)
        full
        begin
        db
        w'
        (meaning get_op key [] (λ k'. Db.get k' full.database))
unfolding bytes is_utf8
store_refines_example =
    store_refines place memory listening_kernel listening 9 1 refl (omega arith) refl (λ t x. refl)
      (λ m x. refl) full key [] begin refl refl refl refl refl refl refl get_op 0 0

-- The get command means the value and its whole length.
get_means :
    meaning get_op key [] (λ k'. Db.get k' full.database)
    ≡ ((λ k'. Db.get k' full.database), 0, some (98 ∷ 99 ∷ []))
get_means = refl

-- Bytes that are UTF-8, and bytes that are not: a byte that continues nothing, a character cut off, an
-- overlong one, a surrogate, and one beyond the last.
utf8_runs :
    (is_utf8 (97 ∷ 195 ∷ 169 ∷ 240 ∷ 159 ∷ 166 ∷ 128 ∷ []) ≡ true)
    × (is_utf8 (128 ∷ []) ≡ false)
    × (is_utf8 (226 ∷ 130 ∷ []) ≡ false)
    × (is_utf8 (224 ∷ 159 ∷ 191 ∷ []) ≡ false)
    × (is_utf8 (237 ∷ 160 ∷ 128 ∷ []) ≡ false)
    × (is_utf8 (244 ∷ 144 ∷ 128 ∷ 128 ∷ []) ≡ false)
unfolding is_utf8
utf8_runs = (refl, refl, refl, refl, refl, refl)
