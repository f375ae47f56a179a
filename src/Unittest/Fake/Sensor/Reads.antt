-- ===== src/Unittest/Fake/Sensor/Reads.antt =====
-- A read of the fake sensors of unittest/src/fake/temperature/mod.rs and its likes that have a value at
-- hand, and a blocking call around it.
use libtock_rs.Common.{
  ℕ, ◌<◌, ◌^◌, ◌≡◌, ◌≢◌, refl, ◌∙◌, ap, false, true, Option, none, some, [], ◌∷◌, lookup, ok,
  returns, arith, bind-returns, if◌then◌else◌, ◌>>=◌, ◌>>◌, pure,
}
use libtock_rs.Platform.ErrorCode.{busy}
use libtock_rs.Platform.CommandReturn.{CommandReturn}
use libtock_rs.Platform.Syscalls.{Config}
use libtock_rs.Platform.AsyncCall.{Place}
use libtock_rs.Unittest.CommandReturn.{success, failure}
use libtock_rs.Unittest.KernelData.{KernelData, DriverData, Args}
use libtock_rs.Unittest.World.{World, Env, hosted, M}
use libtock_rs.Unittest.ShareData.{expected, schedule_upcall}
use libtock_rs.Unittest.Syscalls.Subscribe.{fn_register}
use libtock_rs.Unittest.Fake.Subscribed.{entry, schedule_first}
use libtock_rs.Unittest.Fake.Reading.{
  Round, listening_world, queued, starts, unit_command, present, present_upcall, none_queued,
  command_world, command_kernel, listening_driver, released,
}
use libtock_rs.Unittest.Fake.Sensor.{
  Sensor, store, set_busy, take_upcall, set_value, set_taken, deliver, read, begin, command,
}

-- A sensor that is not read, with the value that it has at hand.
abbrev pub resting : ℕ → Option ℕ → Sensor
resting n value = record { busy = false; upcall_on_command = value; share_ref = n }

module _ {H : Type 0} (place : Place H Sensor) where
  set_busy_lem :
      (b : _) (s : Sensor) (w : World H)
      → place.get w.host ≡ s
      → set_busy place b w ≡ returns (tt, store place (record s { busy = b }) w)
  set_busy_lem b s w e = ap (λ (x : Sensor). returns (tt, store place (record x { busy = b }) w)) e

  take_upcall_lem :
      (s : Sensor) (w : World H)
      → place.get w.host ≡ s
      → take_upcall place w
        ≡ returns (s.upcall_on_command, store place (record s { upcall_on_command = none }) w)
  take_upcall_lem s w e =
      ap
        (λ (x : Sensor).
          returns (x.upcall_on_command, store place (record x { upcall_on_command = none }) w))
        e

  -- The states of the sensor in a read that has a value at hand.
  abbrev pub reading : ℕ → ℕ → H → H
  reading n value h =
      place.put (record { busy = true; upcall_on_command = some value; share_ref = n }) h

  abbrev pub taken : ℕ → ℕ → H → H
  taken n value h =
      place.put (record { busy = true; upcall_on_command = none; share_ref = n })
        (reading n value h)

  abbrev pub delivered : ℕ → ℕ → H → H
  delivered n value h = place.put (resting n none) (taken n value h)

  module _ (n value f p : ℕ) (w : World H) (k : KernelData) (d : DriverData)
      (hk : w.kernel_data ≡ some k) (hd : lookup n k.drivers ≡ some d) (h : 0 < d.num_upcalls)
      (hu : lookup 0 d.upcalls ≡ some (record { fn_pointer = some f; payload = p }))
      (hq : k.upcall_queue ≡ []) (at_hand : place.get w.host ≡ resting n (some value)) where
    -- The world where the upcall is queued, given the state outside the kernel.
    abbrev queued_with : H → World H
    queued_with host = record {
      kernel_data = some (record k { upcall_queue = entry n 0 (value, 0, 0) f p ∷ [] });
      host = host;
    }

    delivers :
        (host : H)
        → place.get host ≡ record { busy = true; upcall_on_command = none; share_ref = n }
        → set_value place value (record w { host = host })
          ≡ returns (tt, queued_with (place.put (resting n none) host))
    unfolding set_value
    delivers host e =
        ap
          (λ (s : Sensor).
            if s.busy
            then deliver place s.share_ref value (record w { host = host })
            else returns (tt, record w { host = host }))
          e
        ∙ bind-returns (schedule_upcall n 0 (value, 0, 0)) (λ r. expected r >> set_busy place false)
            (schedule_first n 0 (value, 0, 0) (record w { host = host }) k d f p hk hd h hu hq)
        ∙ set_busy_lem false _ (queued_with host) e

    abbrev answer : Option ℕ → M H CommandReturn
    answer val = set_taken place val >> pure success

    pub read_delivers :
        (a b : ℕ)
        → command place 1 a b w ≡ returns (success, queued_with (delivered n value w.host))
    unfolding command read
    read_delivers a b =
        ap (λ (s : Sensor). if s.busy then returns (failure busy, w) else begin place w) at_hand
        ∙ bind-returns (set_busy place true) (λ _. take_upcall place >>= answer)
            (set_busy_lem true _ w at_hand)
        ∙ bind-returns (take_upcall place) answer (
            take_upcall_lem _ (record w { host = reading n value w.host }) (place.get-put _ w.host))
        ∙ bind-returns (set_value place value) (λ _. pure success)
            (delivers (taken n value w.host) (place.get-put _ (reading n value w.host)))

module _ {H : Type 0} (env : Env H) (cfg : Config (World H)) (n fcn payload value : ℕ) (w : World H)
    (k : KernelData) (d : DriverData) (n32 : n < 2 ^ 32) (hk : w.kernel_data ≡ some k)
    (he : k.expected_syscalls ≡ []) (hd : lookup n k.drivers ≡ some d) (h : 0 < d.num_upcalls)
    (hn : fn_register (lookup 0 d.upcalls) ≡ 0) (hq : k.upcall_queue ≡ []) (hf : fcn ≢ 0)
    (sensor : Place H Sensor) (cell : Place H (Option ℕ))
    (cell_apart : (s : Sensor) (v : H) → cell.get (sensor.put s v) ≡ cell.get v)
    (sensor_apart : (o : Option ℕ) (v : H) → sensor.get (cell.put o v) ≡ sensor.get v)
    (is_sensor : (c a b : ℕ) (v : World H) → env.command d.driver c a b v ≡ command sensor c a b v)
    (calls : (args : Args) (v : World H)
      → env.upcall_fn fcn args payload v ≡ returns (tt, (hosted cell).put (some args.0) v))
    (at_hand : sensor.get w.host ≡ resting n (some value)) where
  abbrev pub round : Round H ℕ
  round = record {
    env = env;
    cfg = cfg;
    n = n;
    c = 1;
    a = 0;
    b = 0;
    fcn = fcn;
    payload = payload;
    w = w;
    k = k;
    d = d;
    n32 = n32;
    hk = hk;
    he = he;
    hd = hd;
    h = h;
    hn = hn;
    cell = cell;
    decode = λ args. args.0;
    calls = calls;
    args = (value, 0, 0);
    host = delivered sensor n value (cell.put none w.host);
    unset = cell_apart _ _ ∙ cell_apart _ _ ∙ cell_apart _ _ ∙ cell.get-put none w.host;
  }

  pub sensor_starts :
      unit_command env n 1 0 0 (listening_world round) ≡ returns (ok tt, queued round)
  sensor_starts = starts round (omega arith) (omega arith) (omega arith) (
      is_sensor 1 0 0 (command_world round)
      ∙ read_delivers sensor n value fcn payload (command_world round) (command_kernel round)
          (listening_driver round) refl (present round) h (present_upcall round hf)
          (none_queued round hq) (sensor_apart none w.host ∙ at_hand) 0 0)

  -- The sensor rests again, with no value at hand.
  pub rests : sensor.get (released round).host ≡ resting n none
  rests = sensor_apart _ _ ∙ sensor.get-put _ _
