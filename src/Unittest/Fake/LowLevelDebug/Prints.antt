-- ===== src/Unittest/Fake/LowLevelDebug/Prints.antt =====
-- The calls of apis/kernel/low_level_debug/src/lib.rs on the fake kernel, with the fake driver of
-- unittest/src/fake/low_level_debug/mod.rs.
use libtock_rs.Common.{
  ℕ, ◌<◌, ◌^◌, ◌≡◌, refl, ◌∙◌, ap, some, List, [], ◌∷◌, ◌++◌, map, append_assoc, append-nil, lookup,
  All, Run, returns, arith, bind-returns, ◌>>=◌, ◌>>◌, pure, sym,
}
use libtock_rs.Platform.RawSyscalls.{RawSyscalls}
use libtock_rs.Platform.Syscalls
use libtock_rs.Platform.AsyncCall.{Place}
use libtock_rs.Apis.LowLevelDebug as Api
use libtock_rs.Apis.LowLevelDebug.{AlertCode}
use libtock_rs.Unittest.CommandReturn.{success}
use libtock_rs.Unittest.KernelData.{KernelData, DriverData, SyscallLogEntry}
use libtock_rs.Unittest.World.{World, Env}
use libtock_rs.Unittest.Syscalls.Enter.{enter, rest}
use libtock_rs.Unittest.Fake.{fake_syscalls}
use libtock_rs.Unittest.Fake.Command.{command_routes}
use libtock_rs.Unittest.Fake.Results.{success-IsReturn}
use libtock_rs.Unittest.Fake.LowLevelDebug.{
  Message, LowLevelDebug, alert_code, print_1, print_2, command,
}

-- A call of the interface, and the message that it means.
pub data Print : Type 0 where
  alert : AlertCode → Print
  one : ℕ → Print
  two : ℕ → ℕ → Print

abbrev pub message : Print → Message
message (alert code) = alert_code (Api.code_number code)
message (one x) = print_1 x
message (two x y) = print_2 x y

abbrev pub IsPrint : Print → Type 0
IsPrint (alert code) = Unit
IsPrint (one x) = x < 2 ^ 32
IsPrint (two x y) = (x < 2 ^ 32) × (y < 2 ^ 32)

module _ {W : Type 0} (raw : RawSyscalls W) where
  abbrev pub print : Print → Run W (Unit {0})
  print (alert code) = Api.print_alert_code raw code
  print (one x) = Api.print_1 raw x
  print (two x y) = Api.print_2 raw x y

  unfoldable pub print_all : List Print → Run W (Unit {0})
  unfolding Api.print_alert_code Api.print_1 Api.print_2
  print_all [] = pure tt
  print_all (p ∷ ps) = do print p; print_all ps

module _ {H : Type 0} (env : Env H) (place : Place H LowLevelDebug) (d : DriverData)
    (is_debug : (c a b : ℕ) (v : World H)
      → env.command d.driver c a b v ≡ command place c a b v) where
  -- The driver is registered and no system call is expected.
  abbrev pub IsReady : World H → Type 0
  IsReady w =
      (k : KernelData) × (w.kernel_data ≡ some k)
      × (k.expected_syscalls ≡ [])
      × (lookup 8 k.drivers ≡ some d)

  abbrev pub Appends : List Message → World H → World H → Type 0
  Appends ms w v = (place.get v.host ≡ place.get w.host ++ ms) × IsReady v

  -- A command that the driver answers with a message.
  command_prints :
      (c a b : ℕ) (m : Message) (w : World H)
      → c < 2 ^ 32
      → a < 2 ^ 32
      → b < 2 ^ 32
      → ((v : World H)
          → command place c a b v
            ≡ returns (success, record v { host = place.put (place.get v.host ++ m ∷ []) v.host }))
      → IsReady w
      → (v : World H) × ((Syscalls.command (fake_syscalls env) 8 c a b >>= λ r. pure tt) w
          ≡ returns (tt, v))
        × Appends (m ∷ []) w v
  command_prints c a b m w hc ha hb answers (k, hk, he, hd) =
      let k' : KernelData = enter (SyscallLogEntry.command 8 c a b) k in
      let v : World H = record {
        kernel_data = some k';
        host = place.put (place.get w.host ++ m ∷ []) w.host;
      } in
      (
        v,
        bind-returns (Syscalls.command (fake_syscalls env) 8 c a b) (λ r. pure tt)
            (command_routes env 8 c a b w k (omega arith) hc ha hb hk d success v he hd
              (is_debug c a b (record w { kernel_data = some k' })
                ∙ answers (record w { kernel_data = some k' }))
              success-IsReturn),
        (place.get-put (place.get w.host ++ m ∷ []) w.host, (k', refl, ap rest he, hd)),
      )

  print_prints :
      (p : Print) (w : World H)
      → IsPrint p
      → IsReady w
      → (v : World H) × (print (fake_syscalls env) p w ≡ returns (tt, v))
        × Appends (message p ∷ []) w v
  unfolding Api.print_alert_code Api.print_1 Api.print_2 command
  print_prints (alert AlertCode.panic) w fits ready =
      command_prints 1 1 0 (alert_code 1) w (omega arith) (omega arith) (omega arith) (λ v. refl)
        ready
  print_prints (alert AlertCode.wrong_location) w fits ready =
      command_prints 1 2 0 (alert_code 2) w (omega arith) (omega arith) (omega arith) (λ v. refl)
        ready
  print_prints (one x) w fits ready =
      command_prints 2 x 0 (print_1 x) w (omega arith) fits (omega arith) (λ v. refl) ready
  print_prints (two x y) w fits ready =
      command_prints 3 x y (print_2 x y) w (omega arith) fits.0 fits.1 (λ v. refl) ready

  -- Any sequence of prints on the fake kernel returns, and the fake driver then has their messages in
  -- their order behind those that it had. The driver is registered as the driver 8, no system call is
  -- expected, and the numbers that are printed fit in 32 bits.
  pub prints_in_order :
      (ps : List Print) (w : World H)
      → All IsPrint ps
      → IsReady w
      → (v : World H) × (print_all (fake_syscalls env) ps w ≡ returns (tt, v))
        × Appends (map message ps) w v
  unfolding print_all
  prints_in_order [] w fits ready = (w, refl, (sym (append-nil (place.get w.host)), ready))
  prints_in_order (p ∷ ps) w fits ready =
      let (v, ran, (has, ready')) = print_prints p w fits.0 ready in
      let (v', ran', (has', ready'')) = prints_in_order ps v fits.1 ready' in
      (
        v',
        bind-returns (print (fake_syscalls env) p) (λ _. print_all (fake_syscalls env) ps) ran
            ∙ ran',
        (
          has'
              ∙ ap (λ ms. ms ++ map message ps) has
              ∙ append_assoc (place.get w.host) (message p ∷ []) (map message ps),
          ready'',
        ),
      )
