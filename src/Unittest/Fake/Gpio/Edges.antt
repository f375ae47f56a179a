-- ===== src/Unittest/Fake/Gpio/Edges.antt =====
-- `set_value` of unittest/src/fake/gpio/mod.rs: which changes of a pin's value are told to the application.
use libtock_rs.Common.{
  ℕ, ◌<◌, ◌≡◌, refl, ◌∙◌, ap, Bool, true, false, not, ◌&&◌, Option, none, some, lookup, get_elem?,
  if◌then◌else◌, ok, returns, bind-returns, ◌>>=◌, pure, ◌==◌,
}
use libtock_rs.Platform.AsyncCall.{Place}
use libtock_rs.Unittest.KernelData.{KernelData, DriverData}
use libtock_rs.Unittest.World.{World}
use libtock_rs.Unittest.ShareData.{schedule_upcall}
use libtock_rs.Unittest.Fake.Subscribed.{enqueued, schedule_last}
use libtock_rs.Unittest.ShareData.{expected}
use libtock_rs.Unittest.Fake.Lists.{get_elem?-set}
use libtock_rs.Unittest.Fake.Gpio.{
  Gpio, GpioState, InterruptEdge, either, rising, falling, set_gpio, set_value, fires, bool_ne, bit,
  notify, get_gpio_state, joined,
}

-- The change from the old value to the new one is an edge that the pin waits for.
abbrev pub is_edge : Option InterruptEdge → Bool → Bool → Bool
is_edge none old new = false
is_edge (some either) old new = bool_ne old new
is_edge (some rising) old new = not old && new
is_edge (some falling) old new = old && not new

is_edge-fires :
    (edge : Option InterruptEdge) (old new : Bool)
    → (bool_ne old new && fires edge new) ≡ is_edge edge old new
unfolding fires
is_edge-fires none true true = refl
is_edge-fires none true false = refl
is_edge-fires none false true = refl
is_edge-fires none false false = refl
is_edge-fires (some either) true true = refl
is_edge-fires (some either) true false = refl
is_edge-fires (some either) false true = refl
is_edge-fires (some either) false false = refl
is_edge-fires (some rising) true true = refl
is_edge-fires (some rising) true false = refl
is_edge-fires (some rising) false true = refl
is_edge-fires (some rising) false false = refl
is_edge-fires (some falling) true true = refl
is_edge-fires (some falling) true false = refl
is_edge-fires (some falling) false true = refl
is_edge-fires (some falling) false false = refl

joined_if :
    (b : Bool) (g : GpioState) (o : Option (Option GpioState))
    → joined (if b then some (some g) else o) ≡ (if b then some g else joined o)
joined_if true g o = refl
joined_if false g o = refl

module _ {H : Type 0} (place : Place H Gpio) (pin : ℕ) (value : Bool) (g : GpioState) (w : World H)
    (k : KernelData) (d : DriverData) (f p : ℕ) (hk : w.kernel_data ≡ some k)
    (hd : lookup 4 k.drivers ≡ some d) (h : 0 < d.num_upcalls)
    (hu : lookup 0 d.upcalls ≡ some (record { fn_pointer = some f; payload = p }))
    (share : (place.get w.host).share_ref ≡ 4)
    (there : get_elem? (place.get w.host).gpios pin ≡ some (some g)) where
  -- The world where the value is stored and the upcall is queued or not.
  abbrev changed : Bool → World H
  changed told = record (set_gpio place pin (some (record g { value = value })) w) {
    kernel_data = some (if told then enqueued 4 0 (pin, bit value, 0) f p k else k);
  }

  abbrev untold : World H
  untold = set_gpio place pin (some (record g { value = value })) w

  share_stays : (place.get untold.host).share_ref ≡ 4
  share_stays = ap (λ (s : Gpio). s.share_ref) (place.get-put _ w.host) ∙ share

  same_kernel : untold ≡ changed false
  same_kernel = ap (λ o. record untold { kernel_data = o }) hk

  tells :
      (b : Bool)
      → (if b
          then (schedule_upcall (place.get untold.host).share_ref 0 (pin, bit value, 0)
                >>= expected)
              untold
          else returns (tt, untold))
        ≡ returns (tt, changed b)
  tells true =
      ap (λ n. (schedule_upcall n 0 (pin, bit value, 0) >>= expected) untold) share_stays
      ∙ schedule_last 4 0 (pin, bit value, 0) untold k d f p hk hd h hu
  tells false = ap (λ v. returns (tt, v)) same_kernel

  notifies :
      (differs : Bool)
      → (if differs then notify place pin value g.interrupt_enabled else pure tt) untold
        ≡ returns (tt, changed (differs && fires g.interrupt_enabled value))
  notifies true = tells (fires g.interrupt_enabled value)
  notifies false = ap (λ v. returns (tt, v)) same_kernel

  -- Setting the value of a pin that is there succeeds, stores the value and leaves every other pin alone,
  -- and queues the application's upcall with the pin and the value exactly when the change is an edge that
  -- the pin waits for. The application has registered an upcall that is not null.
  pub set_value_tells :
      (set_value place pin value w
        ≡ returns (ok tt, changed (is_edge g.interrupt_enabled g.value value)))
      × ((told : Bool) (j : ℕ)
          → get_gpio_state place j (changed told)
            ≡ (if pin == j then some (record g { value = value }) else get_gpio_state place j w))
  unfolding set_value get_gpio_state
  set_value_tells = (
    rw (there, set_value)
        (bind-returns
            (if bool_ne g.value value then notify place pin value g.interrupt_enabled else pure tt)
            (λ _. pure (ok tt)) (notifies (bool_ne g.value value))
          ∙ ap (λ b. returns (ok tt, changed b)) (is_edge-fires g.interrupt_enabled g.value value)),
    λ told j.
        ap (λ (s : Gpio). joined (get_elem? s.gpios j)) (place.get-put _ w.host)
        ∙ ap joined (
            get_elem?-set (place.get w.host).gpios pin j (some g)
              (some (record g { value = value })) there)
        ∙ joined_if (pin == j) (record g { value = value }) (get_elem? (place.get w.host).gpios j),
  )
