-- ===== src/Tests/Consoles.antt =====
-- Tests of apis/interface/console/src/lib.rs and of unittest/src/fake/console/mod.rs, where the byte at
-- an address is the address.
use libtock_rs.Common.{
  ℕ, ◌≡◌, refl, Bool, true, false, Option, none, some, List, [], ◌∷◌, ok, returns, arith, pure,
}
use libtock_rs.Platform.AsyncCall.{Place}
use libtock_rs.Apis.Console as Api
use libtock_rs.Unittest.AllowDb.{default_buffer}
use libtock_rs.Unittest.CommandReturn.{success}
use libtock_rs.Unittest.KernelData.{KernelData, DriverData, Upcall}
use libtock_rs.Unittest.Memory.{Memory}
use libtock_rs.Unittest.World.{World, Env, hosted}
use libtock_rs.Unittest.Syscalls.Subscribe.Effect.{registered}
use libtock_rs.Unittest.Fake.{fake_syscalls}
use libtock_rs.Unittest.Fake.Allows.{shared_buffer}
use libtock_rs.Unittest.Fake.Subscribed.{enqueued}
use libtock_rs.Unittest.Fake.Unsubscribe.{null_upcall}
use libtock_rs.Unittest.Fake.Console.{
  Console, new_with_input, info, command, allow_readonly, allow_readwrite, fire_read, is_receiving,
}
use libtock_rs.Unittest.Fake.Console.Writes.{holds}
use libtock_rs.Unittest.Fake.Console.Sync.{write_appends}
use libtock_rs.Unittest.Fake.Console.Reads.{Answered, waiting, read_delivers, deferred_read_ends}
use libtock_rs.Tests.Hosts.{cfg, kernel, nine}

abbrev Host : Type 0
Host = Console × Memory × Option ℕ

abbrev place : Place Host Console
place = record { get = λ h. h.0; put = λ s h. (s, h.1, h.2); get-put = λ s h. refl }

abbrev memory : Place Host Memory
memory = record { get = λ h. h.1; put = λ m h. (h.0, m, h.2); get-put = λ m h. refl }

abbrev cell : Place Host (Option ℕ)
cell = record { get = λ h. h.2; put = λ o h. (h.0, h.1, o); get-put = λ o h. refl }

abbrev env : Env Host
env = record {
  info = λ driver. info;
  register = λ driver n. pure tt;
  command = λ driver. command place memory;
  allow_readonly = λ driver. allow_readonly place memory;
  allow_readwrite = λ driver. allow_readwrite place memory;
  upcall_fn = λ f args p w. returns (tt, (hosted cell).put (some (args.0)) w);
}

abbrev data' : DriverData
data' = record { driver = 0; num_upcalls = 3; upcalls = [] }

abbrev quiet : KernelData
quiet = record (kernel 1) { drivers = (1, data') ∷ [] }

-- A console that has the messages 7 and 8.
abbrev console : Console
console = record (new_with_input []) { messages = 7 ∷ 8 ∷ []; share_ref = 1 }

abbrev begin : World Host
begin = record { kernel_data = some quiet; host = (console, λ a. a, none) }

-- The bytes from 40 to 42 are written.
write_appends_example :
    (v : World Host) × (k' : KernelData) × (Api.write
        (fake_syscalls env)
        cfg
        9
        1
        40
        3
        1
        (hosted cell)
        begin
      ≡ returns (some (ok tt), v))
    × (place.get v.host ≡ holds console (7 ∷ 8 ∷ 40 ∷ 41 ∷ 42 ∷ []) default_buffer)
    × (v.kernel_data ≡ some k')
    × (k'.allow_db ≡ [])
    × (k'.upcall_queue ≡ [])
    × (registered 1 1 k'.drivers ≡ some null_upcall)
write_appends_example =
    write_appends env cfg 9 1 40 3 0 place memory cell begin quiet data' console refl refl refl refl
      (omega arith) refl nine refl (λ o x. refl) (λ c a b v. refl) (λ b u v. refl) (λ args v. refl)
      (omega arith) (omega arith) (omega arith) tt (λ o. o.3) (λ t x. refl) (λ o x. refl)

abbrev upcall_9 : Upcall
upcall_9 = record { fn_pointer = some 9; payload = 1 }

abbrev listening : DriverData
listening = record data' { upcalls = (2, upcall_9) ∷ [] }

abbrev listening_kernel : KernelData
listening_kernel = record (kernel 1) { drivers = (1, listening) ∷ [] }

-- A console with a read buffer of four bytes at 40.
abbrev reader : List ℕ → Bool → Console
reader input deferred = record (new_with_input input) {
  read_buffer = shared_buffer 40 4;
  deferred = deferred;
  share_ref = 1;
}

abbrev reading : List ℕ → Bool → World Host
reading input deferred = record {
  kernel_data = some listening_kernel;
  host = (reader input deferred, λ a. a, none);
}

-- Three of five bytes are asked for.
read_delivers_example :
    (v : World Host) × (command place memory 2 3 0 (reading (1 ∷ 2 ∷ 3 ∷ 4 ∷ 5 ∷ []) false)
      ≡ returns (success, v))
    × Answered place memory listening_kernel listening 9 1 refl
        (omega arith)
        refl
        (λ t x. refl)
        (λ m x. refl)
        (reader (1 ∷ 2 ∷ 3 ∷ 4 ∷ 5 ∷ []) false)
        3
        (reading (1 ∷ 2 ∷ 3 ∷ 4 ∷ 5 ∷ []) false)
        v
read_delivers_example =
    read_delivers place memory listening_kernel listening 9 1 refl (omega arith) refl (λ t x. refl)
      (λ m x. refl) (reading (1 ∷ 2 ∷ 3 ∷ 4 ∷ 5 ∷ []) false) (reader (1 ∷ 2 ∷ 3 ∷ 4 ∷ 5 ∷ []) false)
      refl refl refl 3 0 refl

-- The world where a read of four bytes is outstanding.
abbrev outstanding : World Host
outstanding =
    waiting place memory listening_kernel listening 9 1 refl (omega arith) refl (λ t x. refl)
      (λ m x. refl) (reading [] true) (reader [] true) refl refl refl 4

-- A read that two bytes answer, or that is aborted.
deferred_read_ends_example :
    (command place memory 2 4 0 (reading [] true) ≡ returns (success, outstanding))
    × (is_receiving (place.get outstanding.host) ≡ true)
    × ((v : World Host) × (fire_read place memory (5 ∷ 6 ∷ []) outstanding ≡ returns (tt, v))
        × Answered place memory listening_kernel listening 9 1 refl
            (omega arith)
            refl
            (λ t x. refl)
            (λ m x. refl)
            (reader (5 ∷ 6 ∷ []) true)
            4
            (reading [] true)
            v)
    × (command place memory 3 0 0 outstanding
        ≡ returns (
          success,
          record {
            kernel_data = some (enqueued 1 2 (0, 0, 0) 9 1 listening_kernel);
            host = place.put (reader [] true) outstanding.host;
          },
        ))
deferred_read_ends_example =
    deferred_read_ends place memory listening_kernel listening 9 1 refl (omega arith) refl
      (λ t x. refl) (λ m x. refl) (reading [] true) (reader [] true) refl refl refl 4 0 0 0
      (5 ∷ 6 ∷ []) refl
