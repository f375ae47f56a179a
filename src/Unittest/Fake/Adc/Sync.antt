-- ===== src/Unittest/Fake/Adc/Sync.antt =====
-- `read_single_sample_sync` of apis/peripherals/adc/src/lib.rs on the fake kernel, with the fake ADC of
-- unittest/src/fake/adc/mod.rs.
use libtock_rs.Common.{
  ℕ, suc, ◌<◌, ◌≤◌, ◌^◌, ◌%◌, ◌≡◌, ◌≢◌, refl, ◌∙◌, ap, false, Option, none, some, List, [], ◌==◌,
  lookup, insert, lookup-insert, lookup-insert_self, erase, lookup-erase, if◌then◌else◌, ok, err,
  returns, arith, bind-returns, ◌>>◌,
}
use libtock_rs.Platform.ErrorCode.{busy, no_device, as_u32, transmute}
use libtock_rs.Platform.CommandReturn.Data.{to_result, success_unit, failure_code}
use libtock_rs.Platform.Syscalls.{Config}
use libtock_rs.Platform.AsyncCall.{Place}
use libtock_rs.Apis.Adc
use libtock_rs.Unittest.CommandReturn.{failure}
use libtock_rs.Unittest.KernelData.{KernelData, DriverData, Args}
use libtock_rs.Unittest.World.{World, Env, hosted}
use libtock_rs.Unittest.Syscalls.Subscribe.{fn_register}
use libtock_rs.Unittest.Fake.{fake_syscalls}
use libtock_rs.Unittest.Fake.Command.{no_device-IsReturn}
use libtock_rs.Unittest.Fake.Reading.{
  Round, unit_command, listening_world, queued, starts, present, present_upcall, none_queued,
  command_world, command_kernel, listening_driver, released, released-IsReleased, IsReleased,
}
use libtock_rs.Unittest.Fake.Reading.Waits.{wait_or_fail_returns}
use libtock_rs.Unittest.Fake.Reading.Fails.{
  wait_or_fail_fails, start_fails, refused, refused-IsReleased,
}
use libtock_rs.Unittest.Fake.Adc.{Adc, store, set_value_sync_on, command}
use libtock_rs.Unittest.Fake.Adc.Sample.{resting, delivered, sample_delivers, sample_refused}

no_device-result : to_result success_unit failure_code (failure no_device) ≡ err no_device
unfolding to_result failure transmute as_u32
no_device-result = refl

module _ {H : Type 0} (env : Env H) (cfg : Config (World H)) (fcn payload fuel channels channel : ℕ)
    (values : List (ℕ × ℕ)) (last : Option ℕ) (w : World H) (k : KernelData) (d : DriverData)
    (hk : w.kernel_data ≡ some k) (he : k.expected_syscalls ≡ []) (hd : lookup 5 k.drivers ≡ some d)
    (h : 0 < d.num_upcalls) (hn : fn_register (lookup 0 d.upcalls) ≡ 0) (hq : k.upcall_queue ≡ [])
    (adc : Place H Adc) (cell : Place H (Option ℕ))
    (cell_apart : (s : Adc) (v : H) → cell.get (adc.put s v) ≡ cell.get v)
    (adc_apart : (o : Option ℕ) (v : H) → adc.get (cell.put o v) ≡ adc.get v)
    (is_adc : (c a b : ℕ) (v : World H) → env.command d.driver c a b v ≡ command adc c a b v)
    (calls : (args : Args) (v : World H)
      → env.upcall_fn fcn args payload v ≡ Adc.listener (hosted cell) args v)
    (c32 : channel < 2 ^ 32) (at_rest : adc.get w.host ≡ resting 5 channels values last) where
  module _ (value : ℕ) (hf : fcn ≢ 0) (there : channel < channels) where
    abbrev at_hand_world : World H
    at_hand_world = store adc (resting 5 channels (insert channel value values) last) w

    set_value_lem : set_value_sync_on adc channel value w ≡ returns (tt, at_hand_world)
    unfolding set_value_sync_on
    set_value_lem =
        ap
          (λ (s : Adc). returns (
            tt,
            store adc (record s { upcall_on_command = insert channel value s.upcall_on_command }) w,
          ))
          at_rest

    abbrev round : Round H ℕ
    round = record {
      env = env;
      cfg = cfg;
      n = 5;
      c = 1;
      a = channel;
      b = 0;
      fcn = fcn;
      payload = payload;
      w = at_hand_world;
      k = k;
      d = d;
      n32 = omega arith;
      hk = hk;
      he = he;
      hd = hd;
      h = h;
      hn = hn;
      cell = cell;
      decode = λ args. args.2 % 2 ^ 16;
      calls = calls;
      args = (0, channel, value);
      host =
          delivered adc 5 channels channel (insert channel value values)
            (cell.put none at_hand_world.host);
      unset =
          cell_apart _ _ ∙ cell_apart _ _ ∙ cell_apart _ _ ∙ cell_apart _ _ ∙ cell.get-put none _;
    }

    samples : unit_command env 5 1 channel 0 (listening_world round) ≡ returns (ok tt, queued round)
    samples = starts round (omega arith) c32 (omega arith) (
        is_adc 1 channel 0 (command_world round)
        ∙ sample_delivers adc 5 channels channel value fcn payload (insert channel value values)
            last (command_world round) (command_kernel round) (listening_driver round) refl
            (present round) h (present_upcall round hf) (none_queued round hq)
            (adc_apart none at_hand_world.host ∙ adc.get-put _ w.host)
            (lookup-insert_self channel value values) there 0)

    abbrev converted : Adc
    converted = resting 5 channels (erase channel (insert channel value values)) (some channel)

    rests : adc.get (released round).host ≡ converted
    rests = adc_apart _ _ ∙ adc.get-put _ _

    kept :
        (other : ℕ)
        → lookup other converted.upcall_on_command
          ≡ (if channel == other then none else lookup other values)
    kept other = ground (
      arith,
      lookup-erase channel other (insert channel value values),
      lookup-insert channel other value values,
    )

    -- After `set_value_sync_on` of a value for a channel that the ADC has, `read_single_sample_sync` of the
    -- channel returns the value's lower 16 bits with one round of fuel. Then the ADC is not converting,
    -- its last channel is this one, it has no value at hand for it and for every other channel the one
    -- from before, and the driver's upcall is null and not queued. No upcall that is not null was
    -- registered and none queued, no system call is expected, the listener is not null, the ADC is not
    -- converting, the channel fits in 32 bits, and the states of the ADC and of the cell are apart.
    pub read_single_sample_returns :
        (w' : World H) × ((set_value_sync_on adc channel value
              >> Adc.read_single_sample_sync
                  (fake_syscalls env)
                  cfg
                  fcn
                  payload
                  (hosted cell)
                  (suc fuel)
                  channel)
            w
          ≡ returns (some (ok (value % 2 ^ 16)), w'))
        × ((adc.get w'.host).busy ≡ false)
        × ((adc.get w'.host).last_channel ≡ some channel)
        × ((other : ℕ)
            → lookup other (adc.get w'.host).upcall_on_command
              ≡ (if channel == other then none else lookup other values))
        × IsReleased 5 w'
    unfolding Adc.read_single_sample_sync Adc.register_listener Adc.read_single_sample
    read_single_sample_returns = (
      released round,
      bind-returns (set_value_sync_on adc channel value)
            (λ _.
              Adc.read_single_sample_sync (fake_syscalls env) cfg fcn payload (hosted cell)
                (suc fuel) channel)
            set_value_lem
          ∙ wait_or_fail_returns round (unit_command env 5 1 channel 0) samples (err busy)
              (λ adc_val. ok adc_val) fuel,
      ap (λ (s : Adc). s.busy) rests,
      ap (λ (s : Adc). s.last_channel) rests,
      λ other. ap (λ (s : Adc). lookup other s.upcall_on_command) rests ∙ kept other,
      released-IsReleased round,
    )

  abbrev refused_round : Round H ℕ
  refused_round = record {
    env = env;
    cfg = cfg;
    n = 5;
    c = 1;
    a = channel;
    b = 0;
    fcn = fcn;
    payload = payload;
    w = w;
    k = k;
    d = d;
    n32 = omega arith;
    hk = hk;
    he = he;
    hd = hd;
    h = h;
    hn = hn;
    cell = cell;
    decode = λ args. args.2 % 2 ^ 16;
    calls = calls;
    args = (0, 0, 0);
    host = cell.put none w.host;
    unset = cell.get-put none w.host;
  }

  -- `read_single_sample_sync` of a channel that the ADC does not have returns `NoDevice` with any fuel,
  -- leaves the ADC as it was, and has unregistered the listener. No upcall that is not null was registered
  -- and none queued, no system call is expected, the ADC is not converting, the channel fits in 32 bits,
  -- and the states of the ADC and of the cell are apart.
  pub read_single_sample_no_device :
      channels ≤ channel
      → (w' : World H) × (Adc.read_single_sample_sync
            (fake_syscalls env)
            cfg
            fcn
            payload
            (hosted cell)
            fuel
            channel
            w
          ≡ returns (some (err no_device), w'))
        × (adc.get w'.host ≡ adc.get w.host)
        × IsReleased 5 w'
  unfolding Adc.read_single_sample_sync Adc.register_listener Adc.read_single_sample
  read_single_sample_no_device beyond = (
    refused refused_round,
    wait_or_fail_fails refused_round (unit_command env 5 1 channel 0) no_device (err busy)
        (λ adc_val. ok adc_val) fuel
        (start_fails refused_round no_device (omega arith) c32 (omega arith)
          (is_adc 1 channel 0 (command_world refused_round)
            ∙ sample_refused adc channel 0 (resting 5 channels values last)
                (command_world refused_round) (adc_apart none w.host ∙ at_rest) beyond)
          (no_device-IsReturn) no_device-result),
    adc_apart none w.host,
    refused-IsReleased refused_round hq,
  )
