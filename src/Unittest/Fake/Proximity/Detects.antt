-- ===== src/Unittest/Fake/Proximity/Detects.antt =====
-- The read commands of the fake proximity sensor of unittest/src/fake/proximity/mod.rs where a value is at
-- hand that the sensor reports.
use libtock_rs.Common.{
  ℕ, ◌<◌, ◌≡◌, ◌∙◌, ap, true, Option, none, some, [], ◌∷◌, lookup, if◌then◌else◌, returns,
  bind-returns, ◌>>◌, pure,
}
use libtock_rs.Platform.AsyncCall.{Place}
use libtock_rs.Unittest.CommandReturn.{success}
use libtock_rs.Unittest.KernelData.{KernelData, DriverData}
use libtock_rs.Unittest.World.{World}
use libtock_rs.Unittest.ShareData.{schedule_upcall}
use libtock_rs.Unittest.Fake.Subscribed.{entry, schedule_first}
use libtock_rs.Unittest.ShareData.{expected}
use libtock_rs.Unittest.Fake.Proximity.{
  Proximity, Thresholds, ProximityCommand, no_command, reports, store, modify, deliver, set_value,
  set_pending, begin,
}

-- A sensor without a command.
abbrev pub resting : ℕ → Thresholds → Option ℕ → Proximity
resting n thresholds value = record {
  current_command = no_command;
  thresholds = thresholds;
  upcall_on_command = value;
  share_ref = n;
}

-- One with the command and the value.
abbrev pub commanded : ProximityCommand → ℕ → Thresholds → ℕ → Proximity
commanded c n thresholds value = record {
  current_command = c;
  thresholds = thresholds;
  upcall_on_command = some value;
  share_ref = n;
}

module _ {H : Type 0} (place : Place H Proximity) where
  modify_lem :
      (f : Proximity → Proximity) (s : Proximity) (w : World H)
      → place.get w.host ≡ s
      → modify place f w ≡ returns (tt, store place (f s) w)
  modify_lem f s w e = ap (λ (x : Proximity). returns (tt, store place (f x) w)) e

  module _ (c : ProximityCommand) (n value : ℕ) (thresholds : Thresholds) (host : H) where
    -- The states outside the kernel in a read.
    abbrev asked : H
    asked = place.put (commanded c n thresholds value) host

    abbrev ended : H
    ended = place.put (commanded no_command n thresholds value) asked

    abbrev pub delivered : H
    delivered = place.put (resting n thresholds none) ended

  module _ (c : ProximityCommand) (n value f p : ℕ) (before after : Thresholds) (w : World H)
      (k : KernelData) (d : DriverData) (hk : w.kernel_data ≡ some k)
      (hd : lookup n k.drivers ≡ some d) (h : 0 < d.num_upcalls)
      (hu : lookup 0 d.upcalls ≡ some (record { fn_pointer = some f; payload = p }))
      (hq : k.upcall_queue ≡ []) (at_hand : place.get w.host ≡ resting n before (some value))
      (reported : reports (commanded c n after value) value ≡ true) where
    abbrev queued_with : H → World H
    queued_with host = record {
      kernel_data = some (record k { upcall_queue = entry n 0 (value, 0, 0) f p ∷ [] });
      host = host;
    }

    abbrev in_command : World H
    in_command = record w { host = asked c n value after w.host }

    abbrev clear_command : Proximity → Proximity
    clear_command s = record s { current_command = no_command }

    abbrev clear_upcall : Proximity → Proximity
    clear_upcall s = record s { upcall_on_command = none }

    delivers :
        deliver place n value in_command
        ≡ returns (tt, queued_with (delivered c n value after w.host))
    delivers =
        bind-returns (schedule_upcall n 0 (value, 0, 0))
          (λ r. expected r >> (modify place clear_command >> modify place clear_upcall))
          (schedule_first n 0 (value, 0, 0) in_command k d f p hk hd h hu hq)
        ∙ bind-returns (modify place clear_command) (λ _. modify place clear_upcall)
            (modify_lem clear_command (commanded c n after value)
              (queued_with (asked c n value after w.host)) (place.get-put _ w.host))
        ∙ modify_lem clear_upcall (commanded no_command n after value)
            (queued_with (ended c n value after w.host)) (place.get-put _ _)

    sets :
        set_pending place in_command ≡ returns (tt, queued_with (delivered c n value after w.host))
    unfolding set_value
    sets =
        ap
          (λ (s : Proximity).
            let o : _ = elim s.upcall_on_command [
              | none ↦ returns (tt, in_command)
              | some val ↦ set_value place val in_command
            ] in
            o)
          (place.get-put (commanded c n after value) w.host)
        ∙ ap
            (λ (s : Proximity).
              if reports s value
              then deliver place s.share_ref value in_command
              else returns (tt, in_command))
            (place.get-put (commanded c n after value) w.host)
        ∙ ap (λ b. if b then deliver place n value in_command else returns (tt, in_command))
            reported
        ∙ delivers

    pub begin_delivers :
        (start : Proximity → Proximity)
        → start (resting n before (some value)) ≡ commanded c n after value
        → begin place start w ≡ returns (success, queued_with (delivered c n value after w.host))
    begin_delivers start e =
        bind-returns (modify place start) (λ _. set_pending place >> pure success)
          (modify_lem start _ w at_hand ∙ ap (λ s. returns (tt, store place s w)) e)
        ∙ bind-returns (set_pending place) (λ _. pure success) sets
