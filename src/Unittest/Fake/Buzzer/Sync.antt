-- ===== src/Unittest/Fake/Buzzer/Sync.antt =====
-- `tone_sync` of apis/interface/buzzer/src/lib.rs on the fake kernel, with the fake buzzer of
-- unittest/src/fake/buzzer/mod.rs, where `set_tone_sync` has put a tone at hand.
use libtock_rs.Common.{
  ℕ, suc, ◌%◌, ◌<◌, ◌^◌, ◌≡◌, ◌≢◌, refl, ◌∙◌, ap, true, false, Option, none, some, [], ◌∷◌, lookup,
  ok, err, returns, arith, bind-returns, ◌>>=◌, ◌>>◌, pure, if◌then◌else◌,
}
use libtock_rs.Platform.ErrorCode
use libtock_rs.Platform.Syscalls.{Config}
use libtock_rs.Platform.AsyncCall.{Place}
use libtock_rs.Apis.Buzzer as Api
use libtock_rs.Unittest.CommandReturn.{success, failure}
use libtock_rs.Unittest.KernelData.{KernelData, DriverData, Args}
use libtock_rs.Unittest.World.{World, Env, hosted}
use libtock_rs.Unittest.Syscalls.Subscribe.{fn_register}
use libtock_rs.Unittest.ShareData.{schedule_upcall, expected}
use libtock_rs.Unittest.Fake.{fake_syscalls}
use libtock_rs.Unittest.Fake.Subscribed.{schedule_first, entry}
use libtock_rs.Unittest.Fake.Reading.{
  Round, starts, listening_driver, command_world, command_kernel, queued, released, present,
  present_upcall, none_queued, IsReleased, released-IsReleased,
}
use libtock_rs.Unittest.Fake.Reading.Waits.{wait_or_fail_returns}
use libtock_rs.Unittest.Fake.Buzzer.{
  Buzzer, store, set_idle, set_tone, deliver, sign_extend, begin, tone, command,
}

-- A buzzer that is idle, with or without a tone at hand.
abbrev pub idle : Option ℕ → Option ℕ → Buzzer
idle freq duration = record {
  is_busy = false;
  freq_on_command = freq;
  duration_on_command = duration;
  share_ref = 589824;
}

abbrev pub sounding : Buzzer
sounding = record {
  is_busy = true;
  freq_on_command = none;
  duration_on_command = none;
  share_ref = 589824;
}

module _ {H : Type 0} (env : Env H) (cfg : Config (World H))
    (fcn payload fuel freq duration freq' duration' : ℕ) (place : Place H Buzzer)
    (cell : Place H (Option ℕ)) (w : World H) (k : KernelData) (d : DriverData)
    (hk : w.kernel_data ≡ some k) (he : k.expected_syscalls ≡ []) (hq : k.upcall_queue ≡ [])
    (hd : lookup 589824 k.drivers ≡ some d) (h : 0 < d.num_upcalls)
    (hn : fn_register (lookup 0 d.upcalls) ≡ 0) (hf : fcn ≢ 0) (freq32 : freq < 2 ^ 32)
    (calls : (args : Args) (v : World H)
      → env.upcall_fn fcn args payload v ≡ returns (tt, (hosted cell).put (some (args.0)) v))
    (is_buzzer : (c a b : ℕ) (v : World H) → env.command d.driver c a b v ≡ command place c a b v)
    (cell_apart : (s : Buzzer) (x : H) → cell.get (place.put s x) ≡ cell.get x)
    (buzzer_apart : (o : Option ℕ) (x : H) → place.get (cell.put o x) ≡ place.get x)
    (hs : place.get w.host ≡ idle (some freq') (some duration')) where
  abbrev args : Args
  args = (freq', sign_extend duration' % 2 ^ 32, 0)

  abbrev host : H
  host = place.put sounding (cell.put none w.host)

  abbrev round : Round H ℕ
  round = record {
    env = env;
    cfg = cfg;
    n = 589824;
    c = 1;
    a = freq;
    b = duration % 2 ^ 32;
    fcn = fcn;
    payload = payload;
    w = w;
    k = k;
    d = d;
    n32 = omega arith;
    hk = hk;
    he = he;
    hd = hd;
    h = h;
    hn = hn;
    cell = cell;
    decode = λ args. args.0;
    calls = calls;
    args = args;
    host = place.put (idle none none) host;
    unset = cell_apart _ _ ∙ cell_apart _ _ ∙ cell.get-put none w.host;
  }

  -- The world where the buzzer sounds, before and after the upcall is queued.
  abbrev sounds : World H
  sounds = record (command_world round) { host = host }

  abbrev told : World H
  told = record sounds {
    kernel_data =
        some
          (record (command_kernel round) { upcall_queue = entry 589824 0 args fcn payload ∷ [] });
  }

  delivers : set_tone place freq' (sign_extend duration') sounds ≡ returns (tt, queued round)
  unfolding set_tone
  delivers =
      ap
        (λ (s : Buzzer).
          if s.is_busy
          then deliver place s.share_ref freq' (sign_extend duration') sounds
          else returns (tt, sounds))
        (place.get-put sounding (cell.put none w.host))
      ∙ bind-returns (schedule_upcall 589824 0 args >>= expected) (λ _. set_idle place)
          (bind-returns (schedule_upcall 589824 0 args) expected (
            schedule_first 589824 0 args sounds (command_kernel round) (listening_driver round) fcn
              payload refl (present round) h (present_upcall round hf) (none_queued round hq)))
      ∙ ap (λ (s : Buzzer). returns (tt, store place (record s { is_busy = false }) told))
          (place.get-put sounding (cell.put none w.host))

  tones :
      command place 1 freq (duration % 2 ^ 32) (command_world round)
      ≡ returns (success, queued round)
  unfolding command tone
  tones =
      ap
        (λ (s : Buzzer).
          if s.is_busy
          then returns (failure ErrorCode.busy, command_world round)
          else (begin place s >> pure success) (command_world round))
        (buzzer_apart none w.host ∙ hs)
      ∙ bind-returns (begin place (idle (some freq') (some duration'))) (λ _. pure success) delivers

  -- `tone_sync` on the fake kernel, with a fake buzzer that has a tone at hand, succeeds within one round
  -- of its loop: the buzzer is then idle with nothing at hand, nothing is queued, and its upcall is
  -- null. The buzzer is registered as the driver 589824, which has no upcall yet; no system call
  -- is expected and no upcall is queued; the frequency fits in 32 bits; the cell is apart from the
  -- buzzer.
  pub tone_sync_returns :
      (v : World H) × (Api.tone_sync
          (fake_syscalls env)
          cfg
          fcn
          payload
          (hosted cell)
          (suc fuel)
          freq
          duration
          w
        ≡ returns (some (ok tt), v))
      × (place.get v.host ≡ idle none none)
      × IsReleased 589824 v
  unfolding Api.tone_sync Api.tone Api.register_listener
  tone_sync_returns = (
    released round,
    wait_or_fail_returns round (Api.tone (fake_syscalls env) freq duration)
        (starts round (omega arith) freq32 (omega arith)
          (is_buzzer 1 freq (duration % 2 ^ 32) (command_world round) ∙ tones))
        (err ErrorCode.fail) (λ _. ok tt) fuel,
    buzzer_apart (some freq') (place.put (idle none none) host)
        ∙ place.get-put (idle none none) host,
    released-IsReleased round,
  )
