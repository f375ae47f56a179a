-- ===== src/Unittest/Fake/Proximity/Sync.antt =====
-- The blocking calls of apis/sensors/proximity/src/lib.rs on the fake kernel, with the fake sensor of
-- unittest/src/fake/proximity/mod.rs. `set_value_sync` has put a value at hand.
use libtock_rs.Common.{
  ℕ, suc, ◌<◌, ◌≤◌, ◌%◌, ◌≡◌, ◌≢◌, refl, ◌∙◌, ap, ◌⊎◌, true, false, Option, none, some, [], ltb,
  lookup, if◌then◌else◌, ok, err, Result, returns, arith, bind-returns, ◌>>=◌, ◌>>◌, pure,
}
use libtock_rs.Platform.ErrorCode.{ErrorCode, busy, invalid}
use libtock_rs.Platform.Syscalls.{Config, Fallible}
use libtock_rs.Platform.Syscalls
use libtock_rs.Platform.Share.{scope}
use libtock_rs.Platform.AsyncCall.{Place}
use libtock_rs.Apis.Blocking.{Blocking, wait_if_ok, if_ok, result_of_cell}
use libtock_rs.Apis.Proximity
use libtock_rs.Unittest.CommandReturn.{failure}
use libtock_rs.Unittest.KernelData.{KernelData, DriverData, Args}
use libtock_rs.Unittest.World.{World, Env, hosted}
use libtock_rs.Unittest.Syscalls.Subscribe.{fn_register}
use libtock_rs.Unittest.Fake.{fake_syscalls}
use libtock_rs.Unittest.Fake.Reading.{
  Round, unit_command, listening_world, queued, starts, present, present_upcall, none_queued,
  yields, command_world, command_kernel, listening_driver, released, released-IsReleased,
  IsReleased, register, registers, unsubscribes, scope-returns,
}
use libtock_rs.Unittest.Fake.Reading.Waits.{wait_if_ok_returns}
use libtock_rs.Unittest.Fake.Proximity.{
  Proximity, Thresholds, ProximityCommand, read_proximity, read_proximity_on_interrupt, reports,
  has_command, store, set_value_sync, begin, start_reading, start_interrupts, command,
}
use libtock_rs.Unittest.Fake.Proximity.Detects.{resting, commanded, delivered, begin_delivers}

abbrev the_driver_num : ℕ
the_driver_num = 393221

abbrev between : ℕ → ℕ → Thresholds
between lower upper = record { lower = lower; upper = upper }

module _ {H : Type 0} (env : Env H) (cfg : Config (World H)) (fcn payload value : ℕ)
    (thresholds : Thresholds) (before : Option ℕ) (w : World H) (k : KernelData) (d : DriverData)
    (hk : w.kernel_data ≡ some k) (he : k.expected_syscalls ≡ [])
    (hd : lookup 393221 k.drivers ≡ some d) (h : 0 < d.num_upcalls)
    (hn : fn_register (lookup 0 d.upcalls) ≡ 0) (hq : k.upcall_queue ≡ []) (hf : fcn ≢ 0)
    (sensor : Place H Proximity) (cell : Place H (Option ℕ))
    (cell_apart : (s : Proximity) (v : H) → cell.get (sensor.put s v) ≡ cell.get v)
    (sensor_apart : (o : Option ℕ) (v : H) → sensor.get (cell.put o v) ≡ sensor.get v)
    (is_sensor : (c a b : ℕ) (v : World H) → env.command d.driver c a b v ≡ command sensor c a b v)
    (calls : (args : Args) (v : World H)
      → env.upcall_fn fcn args payload v ≡ returns (tt, (hosted cell).put (some args.0) v))
    (at_rest : sensor.get w.host ≡ resting 393221 thresholds before) (small : value < 256) where
  abbrev at_hand_world : World H
  at_hand_world = store sensor (resting the_driver_num thresholds (some value)) w

  set_value_sync_lem : set_value_sync sensor value w ≡ returns (tt, at_hand_world)
  unfolding set_value_sync
  set_value_sync_lem =
      ap
        (λ (s : Proximity).
          returns (tt, store sensor (record s { upcall_on_command = some value }) w))
        at_rest

  -- A call of the command `c` that leaves the sensor with these thresholds.
  abbrev round : ProximityCommand → Thresholds → ℕ → ℕ → ℕ → Round H ℕ
  round which after c a b = record {
    env = env;
    cfg = cfg;
    n = the_driver_num;
    c = c;
    a = a;
    b = b;
    fcn = fcn;
    payload = payload;
    w = at_hand_world;
    k = k;
    d = d;
    n32 = omega arith;
    hk = hk;
    he = he;
    hd = hd;
    h = h;
    hn = hn;
    cell = cell;
    decode = λ args. args.0;
    calls = calls;
    args = (value, 0, 0);
    host = delivered sensor which the_driver_num value after (cell.put none at_hand_world.host);
    unset = cell_apart _ _ ∙ cell_apart _ _ ∙ cell_apart _ _ ∙ cell.get-put none _;
  }

  rests :
      (which : ProximityCommand) (after : Thresholds) (c a b : ℕ)
      → sensor.get (released (round which after c a b)).host ≡ resting the_driver_num after none
  rests which after c a b = sensor_apart _ _ ∙ sensor.get-put _ _

  at_hand :
      sensor.get (cell.put none at_hand_world.host) ≡ resting the_driver_num thresholds (some value)
  at_hand = sensor_apart _ _ ∙ sensor.get-put _ _

  module _ (lower upper fuel : ℕ) (ordered : lower ≤ upper) (byte : upper < 256)
      (outside : (value < lower) ⊎ (upper < value)) where
    abbrev waiting : Round H ℕ
    waiting = round read_proximity_on_interrupt (between lower upper) 2 lower upper

    reported :
        reports
          (commanded read_proximity_on_interrupt the_driver_num (between lower upper) value)
          value
        ≡ true
    unfolding reports
    reported = ground (arith, outside)

    waiting_starts :
        unit_command env the_driver_num 2 lower upper (listening_world waiting)
        ≡ returns (ok tt, queued waiting)
    unfolding command
    waiting_starts =
        starts waiting (omega arith) (omega (arith, ordered, byte)) (omega (arith, byte)) (
          is_sensor 2 lower upper (command_world waiting)
          ∙ ap
              (λ (s : Proximity).
                if has_command s.current_command
                then returns (failure busy, command_world waiting)
                else begin sensor (start_interrupts lower upper) (command_world waiting))
              at_hand
          ∙ begin_delivers sensor read_proximity_on_interrupt the_driver_num value fcn payload
              thresholds (between lower upper) (command_world waiting) (command_kernel waiting)
              (listening_driver waiting) refl (present waiting) h (present_upcall waiting hf)
              (none_queued waiting hq) at_hand reported (start_interrupts lower upper) stores)
      where
        low : lower % 256 ≡ lower
        low = omega (arith, ordered, byte)

        high : upper % 256 ≡ upper
        high = omega (arith, byte)

        bytes : between (lower % 256) (upper % 256) ≡ between lower upper
        bytes = ap (λ l. between l (upper % 256)) low ∙ ap (between lower) high

        stores :
            start_interrupts lower upper (resting the_driver_num thresholds (some value))
            ≡ commanded read_proximity_on_interrupt the_driver_num (between lower upper) value
        stores = ap (λ t. commanded read_proximity_on_interrupt the_driver_num t value) bytes

    -- After `set_value_sync` of a value outside the thresholds, `wait_for_value_between` returns it with
    -- one round of fuel. Then the sensor has no command and no value at hand and keeps the thresholds, and
    -- the driver's upcall is null and not queued. The value and the thresholds are bytes, the lower one
    -- not above the upper one. No upcall that is not null was registered and none queued, no system call
    -- is expected, the listener is not null, the sensor has no command, and the states of the sensor and
    -- of the cell are apart.
    pub wait_for_value_returns :
        (w' : World H) × ((set_value_sync sensor value
              >> Proximity.wait_for_value_between
                  (fake_syscalls env)
                  cfg
                  fcn
                  payload
                  (hosted cell)
                  (suc fuel)
                  lower
                  upper)
            w
          ≡ returns (some (ok value), w'))
        × (sensor.get w'.host ≡ resting 393221 (between lower upper) none)
        × IsReleased 393221 w'
    unfolding Proximity.wait_for_value_between Proximity.register_listener
        Proximity.read_on_interrupt
    wait_for_value_returns = (
      released waiting,
      bind-returns (set_value_sync sensor value)
            (λ _.
              Proximity.wait_for_value_between (fake_syscalls env) cfg fcn payload (hosted cell)
                (suc fuel) lower upper)
            set_value_sync_lem
          ∙ ap (λ b. (if b then pure (some (err invalid)) else waits) at_hand_world) in_order
          ∙ wait_if_ok_returns waiting (unit_command env the_driver_num 2 lower upper)
              waiting_starts (err busy) Proximity.as_u8 fuel
          ∙ ap (λ v. returns (some (ok v), released waiting)) is_byte,
      rests read_proximity_on_interrupt (between lower upper) 2 lower upper,
      released-IsReleased waiting,
    )
      where
        in_order : ltb upper lower ≡ false
        in_order = ground (arith, ordered)

        is_byte : value % 256 ≡ value
        is_byte = omega (arith, small)

        waits : Blocking (World H) (Result ℕ ErrorCode)
        waits =
            wait_if_ok (hosted cell) (fake_syscalls env) (err busy) Proximity.as_u8 (suc fuel)
              the_driver_num (unit_command env the_driver_num 2 lower upper) (register waiting)

  abbrev reading : Round H ℕ
  reading = round read_proximity thresholds 1 0 0

  reading_starts :
      unit_command env the_driver_num 1 0 0 (listening_world reading)
      ≡ returns (ok tt, queued reading)
  unfolding command
  reading_starts = starts reading (omega arith) (omega arith) (omega arith) (
      is_sensor 1 0 0 (command_world reading)
      ∙ ap
          (λ (s : Proximity).
            if has_command s.current_command
            then returns (failure busy, command_world reading)
            else begin sensor start_reading (command_world reading))
          at_hand
      ∙ begin_delivers sensor read_proximity the_driver_num value fcn payload thresholds thresholds
          (command_world reading) (command_kernel reading) (listening_driver reading) refl
          (present reading) h (present_upcall reading hf) (none_queued reading hq) at_hand
          (unfold reports in refl) start_reading refl)

  abbrev yield_if_started : Result (Unit {0}) ErrorCode → Blocking (World H) (Unit {0})
  yield_if_started started =
      if_ok started (Syscalls.yield_wait (fake_syscalls env) >>= λ _. pure (some tt))

  abbrev start_if_registered : Result (Unit {0}) ErrorCode → Blocking (World H) (Unit {0})
  start_if_registered registered =
      if_ok registered (unit_command env the_driver_num 1 0 0 >>= yield_if_started)

  -- After `set_value_sync` of a byte, `read_sync` returns it. Then the sensor has no command and no value
  -- at hand, and the driver's upcall is null and not queued. No upcall that is not null was registered
  -- and none queued, no system call is expected, the listener is not null, the sensor has no command, and
  -- the states of the sensor and of the cell are apart.
  pub read_proximity_returns :
      (w' : World H) × ((set_value_sync sensor value
            >> Proximity.read_sync (fake_syscalls env) cfg fcn payload (hosted cell))
          w
        ≡ returns (ok value, w'))
      × (sensor.get w'.host ≡ resting 393221 thresholds none)
      × IsReleased 393221 w'
  unfolding Proximity.read_sync Proximity.register_listener Proximity.read
  read_proximity_returns = (
    released reading,
    bind-returns (set_value_sync sensor value)
          (λ _. Proximity.read_sync (fake_syscalls env) cfg fcn payload (hosted cell))
          set_value_sync_lem
        ∙ bind-returns
            (scope (Syscalls.unsubscribe (fake_syscalls env) the_driver_num 0)
              (register reading >>= start_if_registered))
            (λ _. result_of_cell (hosted cell) (err busy) Proximity.as_u8)
            (scope-returns (Syscalls.unsubscribe (fake_syscalls env) the_driver_num 0)
              (register reading >>= start_if_registered)
              (bind-returns (register reading) start_if_registered (registers reading)
                ∙ bind-returns (unit_command env the_driver_num 1 0 0) yield_if_started
                    reading_starts
                ∙ bind-returns (Syscalls.yield_wait (fake_syscalls env)) (λ _. pure (some tt))
                    (yields reading))
              (unsubscribes reading))
        ∙ filled,
    rests read_proximity thresholds 1 0 0,
    released-IsReleased reading,
  )
    where
      is_byte : value % 256 ≡ value
      is_byte = omega (arith, small)

      filled :
          result_of_cell (hosted cell) (err busy) Proximity.as_u8 (released reading)
          ≡ returns (ok value, released reading)
      filled =
          rw (cell.get-put (some value) reading.host, result_of_cell)
            (ap (λ v. returns (ok v, released reading)) is_byte)
