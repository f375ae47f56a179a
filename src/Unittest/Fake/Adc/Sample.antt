-- ===== src/Unittest/Fake/Adc/Sample.antt =====
-- `read_single_sample_sync` of apis/peripherals/adc/src/lib.rs on the fake kernel, with the fake ADC of
-- unittest/src/fake/adc/mod.rs.
use libtock_rs.Common.{
  ℕ, ◌<◌, ◌≤◌, ◌≡◌, refl, ◌∙◌, ap, false, true, Option, some, List, [], ◌∷◌, lookup, erase, leb,
  if◌then◌else◌, returns, arith, bind-returns, ◌>>=◌, ◌>>◌, pure,
}
use libtock_rs.Platform.ErrorCode.{busy, no_device}
use libtock_rs.Platform.CommandReturn.{CommandReturn}
use libtock_rs.Platform.AsyncCall.{Place}
use libtock_rs.Unittest.CommandReturn.{success, failure}
use libtock_rs.Unittest.KernelData.{KernelData, DriverData}
use libtock_rs.Unittest.World.{World, M}
use libtock_rs.Unittest.ShareData.{schedule_upcall}
use libtock_rs.Unittest.Fake.Subscribed.{entry, schedule_first}
use libtock_rs.Unittest.ShareData.{expected}
use libtock_rs.Unittest.Fake.Adc.{
  Adc, store, modify, set_value, set_taken, take_upcall, deliver, begin, single_sample, command,
}

-- An ADC that is not converting.
abbrev pub resting : ℕ → ℕ → List (ℕ × ℕ) → Option ℕ → Adc
resting n channels values last = record {
  busy = false;
  upcall_on_command = values;
  channels = channels;
  last_channel = last;
  share_ref = n;
}

-- One that is.
abbrev converting : ℕ → ℕ → List (ℕ × ℕ) → ℕ → Adc
converting n channels values channel = record (resting n channels values (some channel)) {
  busy = true;
}

abbrev set_channel : ℕ → Adc → Adc
set_channel channel s = record s { last_channel = some channel }

abbrev set_busy : Adc → Adc
set_busy s = record s { busy = true }

module _ {H : Type 0} (place : Place H Adc) where
  modify_lem :
      (f : Adc → Adc) (s : Adc) (w : World H)
      → place.get w.host ≡ s
      → modify place f w ≡ returns (tt, store place (f s) w)
  modify_lem f s w e = ap (λ (x : Adc). returns (tt, store place (f x) w)) e

  -- The states outside the kernel in a conversion.
  module _ (n channels channel : ℕ) (values : List (ℕ × ℕ)) (host : H) where
    abbrev asked : H
    asked = place.put (resting n channels values (some channel)) host

    abbrev started : H
    started = place.put (converting n channels values channel) asked

    abbrev taken : H
    taken = place.put (converting n channels (erase channel values) channel) started

    abbrev pub delivered : H
    delivered = place.put (resting n channels (erase channel values) (some channel)) taken

  module _ (n channels channel value f p : ℕ) (values : List (ℕ × ℕ)) (last : Option ℕ)
      (w : World H) (k : KernelData) (d : DriverData) (hk : w.kernel_data ≡ some k)
      (hd : lookup n k.drivers ≡ some d) (h : 0 < d.num_upcalls)
      (hu : lookup 0 d.upcalls ≡ some (record { fn_pointer = some f; payload = p }))
      (hq : k.upcall_queue ≡ []) (at_rest : place.get w.host ≡ resting n channels values last)
      (at_hand : lookup channel values ≡ some value) (there : channel < channels) where
    abbrev queued_with : H → World H
    queued_with host = record {
      kernel_data = some (record k { upcall_queue = entry n 0 (0, channel, value) f p ∷ [] });
      host = host;
    }

    delivers :
        set_value place value (record w { host = (taken n channels channel values w.host) })
        ≡ returns (tt, queued_with (delivered n channels channel values w.host))
    unfolding set_value
    delivers =
        ap
          (λ (s : Adc).
            if s.busy
            then deliver place s value
                (record w { host = (taken n channels channel values w.host) })
            else returns (tt, record w { host = (taken n channels channel values w.host) }))
          (place.get-put _ (started n channels channel values w.host))
        ∙ bind-returns (schedule_upcall n 0 (0, channel, value))
            (λ r. expected r >> modify place (λ (s : Adc). record s { busy = false }))
            (schedule_first n 0 (0, channel, value)
              (record w { host = (taken n channels channel values w.host) }) k d f p hk hd h hu hq)
        ∙ modify_lem (λ (s : Adc). record s { busy = false }) _
            (queued_with (taken n channels channel values w.host))
            (place.get-put _ (started n channels channel values w.host))

    abbrev answer : Option ℕ → M H CommandReturn
    answer val = set_taken place val >> pure success

    takes :
        take_upcall place channel (record w { host = (started n channels channel values w.host) })
        ≡ returns (some value, record w { host = (taken n channels channel values w.host) })
    takes =
        ap
          (λ (s : Adc). returns (
            lookup channel s.upcall_on_command,
            store place (record s { upcall_on_command = erase channel s.upcall_on_command })
                (record w { host = (started n channels channel values w.host) }),
          ))
          (place.get-put _ (asked n channels channel values w.host))
        ∙ ap (λ v. returns (v, record w { host = (taken n channels channel values w.host) }))
            at_hand

    begins :
        begin place channel w
        ≡ returns (success, queued_with (delivered n channels channel values w.host))
    begins =
        bind-returns (modify place (set_channel channel))
          (λ _. modify place set_busy >> (take_upcall place channel >>= answer))
          (modify_lem (set_channel channel) _ w at_rest)
        ∙ bind-returns (modify place set_busy) (λ _. take_upcall place channel >>= answer)
            (modify_lem set_busy _ (record w { host = (asked n channels channel values w.host) })
              (place.get-put _ w.host))
        ∙ bind-returns (take_upcall place channel) answer takes
        ∙ bind-returns (set_value place value) (λ _. pure success) delivers

    pub sample_delivers :
        (b : ℕ)
        → command place 1 channel b w
          ≡ returns (success, queued_with (delivered n channels channel values w.host))
    unfolding command single_sample
    sample_delivers b =
        ap
          (λ (s : Adc).
            if leb s.channels channel
            then returns (failure no_device, w)
            else if s.busy
            then returns (failure busy, w)
            else begin place channel w)
          at_rest
        ∙ guard
        ∙ begins
      where
        not_beyond : leb channels channel ≡ false
        not_beyond = ground arith

        guard :
            (if leb channels channel then returns (failure no_device, w) else begin place channel w)
            ≡ begin place channel w
        guard = rw (not_beyond) refl

  pub sample_refused :
      (channel b : ℕ) (s : Adc) (w : World H)
      → place.get w.host ≡ s
      → s.channels ≤ channel
      → command place 1 channel b w ≡ returns (failure no_device, w)
  unfolding command single_sample
  sample_refused channel b s w e beyond =
      ap
        (λ (s : Adc).
          if leb s.channels channel
          then returns (failure no_device, w)
          else if s.busy
          then returns (failure busy, w)
          else begin place channel w)
        e
      ∙ rw (is_beyond) refl
    where
      is_beyond : leb s.channels channel ≡ true
      is_beyond = ground arith
