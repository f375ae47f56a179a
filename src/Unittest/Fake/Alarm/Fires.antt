-- ===== src/Unittest/Fake/Alarm/Fires.antt =====
-- The fake alarm of unittest/src/fake/alarm/mod.rs that fires as soon as it is set.
use libtock_rs.Common.{
  ℕ, ◌+◌, ◌%◌, ◌<◌, ◌^◌, ◌≡◌, refl, ◌∙◌, ap, false, none, some, [], ◌∷◌, lookup, ok, returns,
  bind-returns,
}
use libtock_rs.Platform.AsyncCall.{Place}
use libtock_rs.Unittest.CommandReturn.{success_u32}
use libtock_rs.Unittest.KernelData.{KernelData, DriverData}
use libtock_rs.Unittest.World.{World, ◌>>=◌, pure}
use libtock_rs.Unittest.ShareData.{expected, schedule_upcall}
use libtock_rs.Unittest.Fake.Subscribed.{schedule_first}
use libtock_rs.Unittest.Fake.Alarm.{
  Alarm, store, fire, fire_from, fire_now, set_relative, command, is_armed,
}

module _ {H : Type 0} (place : Place H Alarm) where
  fire_lem :
      (a : Alarm) (deadline : ℕ) (w w' : World H)
      → place.get w.host ≡ a
      → a.expiration ≡ some deadline
      → a.share_ref ≡ 0
      → schedule_upcall 0 0 (deadline, 0, 0) (store place (record a { expiration = none }) w)
        ≡ returns (ok tt, w')
      → fire place w ≡ returns (tt, w')
  unfolding fire
  fire_lem a deadline w w' e armed share run =
      ap (λ x. fire_from place x w) e
      ∙ scheduled
      ∙ ap
          (λ n.
            (schedule_upcall n 0 (deadline, 0, 0) >>= expected)
              (store place (record a { expiration = none }) w))
          share
      ∙ bind-returns (schedule_upcall 0 0 (deadline, 0, 0)) expected run
    where
      scheduled :
          fire_from place a w
          ≡ (schedule_upcall a.share_ref 0 (deadline, 0, 0) >>= expected)
              (store place (record a { expiration = none }) w)
      scheduled = rw (armed, fire_from) refl

  module _ (argument : ℕ) (unused : ℕ) (w : World H) (k : KernelData) (d : DriverData) (f p : ℕ)
      (hk : w.kernel_data ≡ some k) (hd : lookup 0 k.drivers ≡ some d) (h : 0 < d.num_upcalls)
      (hu : lookup 0 d.upcalls ≡ some (record { fn_pointer = some f; payload = p }))
      (hq : k.upcall_queue ≡ []) where
    abbrev wake : ℕ
    wake = ((place.get w.host).now + argument) % 2 ^ 32

    abbrev armed : Alarm
    armed = record (place.get w.host) { now = wake; expiration = some wake }

    -- The world where the upcall is queued and the alarm is not armed.
    abbrev fired : World H
    fired = record {
      kernel_data = some (record k {
        upcall_queue =
            record {
              args = (wake, 0, 0);
              id = record { driver_num = 0; subscribe_num = 0 };
              upcall = record { fn_pointer = some f; payload = p };
            }
            ∷ [];
      });
      host = place.put (record armed { expiration = none }) (place.put armed w.host);
    }

    -- The command that sets an alarm which is not deferred returns the time at which it expires, by
    -- then has queued the application's upcall with this time, which wraps around at `2 ^ 32`, and
    -- leaves the alarm at this time and not armed. The upcall is registered and the queue was empty.
    pub set_relative_fires :
        (place.get w.host).deferred ≡ false
        → (place.get w.host).share_ref ≡ 0
        → (command place 5 argument unused w ≡ returns (success_u32 wake, fired))
          × (place.get fired.host ≡ record (place.get w.host) { now = wake; expiration = none })
          × (is_armed place fired ≡ false)
    unfolding command set_relative is_armed
    set_relative_fires at_once share = (
      runs,
      place.get-put (record armed { expiration = none }) (place.put armed w.host),
      rw (place.get-put (record armed { expiration = none }) (place.put armed w.host), is_armed)
          refl,
    )
      where
        fires : fire place (store place armed w) ≡ returns (tt, fired)
        fires =
            fire_lem armed wake (store place armed w) fired (place.get-put armed w.host) refl share
              (schedule_first 0 0 (wake, 0, 0) _ k d f p hk hd h hu hq)

        runs : set_relative place argument w ≡ returns (success_u32 wake, fired)
        runs =
            ap (λ b. (fire_now place b >>= λ _. pure (success_u32 wake)) (store place armed w))
              at_once
            ∙ bind-returns (fire place) (λ _. pure (success_u32 wake)) {w = store place armed w}
                fires
