-- ===== src/Unittest/Fake/Console/Reads.antt =====
-- unittest/src/fake/console/mod.rs: how a read is answered, at once or when input arrives, and how it
-- is aborted.
use libtock_rs.Common.{
  ℕ, ◌+◌, ◌%◌, ◌<◌, ◌≤◌, ◌^◌, ◌≡◌, ◌∙◌, sym, ap, ◌⊎◌, inl, inr, Bool, true, false, none, some, List,
  ◌++◌, lookup, take, drop, take-drop, min, length, length-take, min-right, arith, Outcome, returns,
  bind-returns, ◌>>=◌, ◌>>◌, pure, if◌then◌else◌, subst,
}
use libtock_rs.Platform.AsyncCall.{Place}
use libtock_rs.Unittest.CommandReturn.{success}
use libtock_rs.Unittest.KernelData.{KernelData, DriverData, Args}
use libtock_rs.Unittest.Memory.{Memory, slice, copy_to, slice-copy_to, copy_to_below, copy_to_above}
use libtock_rs.Unittest.World.{World}
use libtock_rs.Unittest.ShareData.{schedule_upcall, expected}
use libtock_rs.Unittest.Fake.Subscribed.{enqueued, schedule_last}
use libtock_rs.Unittest.Fake.Console.{
  Console, store, fill, deliver, clamped, complete_read, fire_read, read, abort, command,
  is_receiving,
}

module _ {H : Type 0} (place : Place H Console) (memory : Place H Memory) (k : KernelData)
    (d : DriverData) (f p : ℕ) (hd : lookup 1 k.drivers ≡ some d) (h : 2 < d.num_upcalls)
    (hu : lookup 2 d.upcalls ≡ some (record { fn_pointer = some f; payload = p }))
    (stays : (t : Console) (x : H) → memory.get (place.put t x) ≡ memory.get x)
    (apart : (m : Memory) (x : H) → place.get (memory.put m x) ≡ place.get x) where
  -- A read of `count` bytes by the console `s` has been answered between two worlds: the input is in two
  -- parts, of which the second is left and the first, as long as the count, the read buffer and
  -- the input allow and no longer, is at the front of the read buffer. The rest of memory is as it was,
  -- and the upcall with the number of bytes is at the back of the queue.
  abbrev pub Answered : Console → ℕ → World H → World H → Type 0
  Answered s count w v =
      (n : ℕ) × (sent : List ℕ) × (rest : List ℕ) × (n ≤ count)
      × (n ≤ s.read_buffer.len)
      × (n ≤ length s.input)
      × ((m : ℕ) → m ≤ count → m ≤ s.read_buffer.len → m ≤ length s.input → m ≤ n)
      × (length sent ≡ n)
      × (sent ++ rest ≡ s.input)
      × (place.get v.host ≡ record s { receiving = none; input = rest })
      × (slice (memory.get v.host) s.read_buffer.address n ≡ sent)
      × ((a : ℕ)
          → (a < s.read_buffer.address) ⊎ (s.read_buffer.address + n ≤ a)
          → memory.get v.host a ≡ memory.get w.host a)
      × (v.kernel_data ≡ some (enqueued 1 2 (0, n % 2 ^ 32, 0) f p k))

  length_taken :
      (s : Console) (count : ℕ) → length (take (clamped s count) s.input) ≡ clamped s count
  length_taken s count =
      length-take (clamped s count) s.input
        (min-right (min count s.read_buffer.len) (length s.input))

  module _ (w : World H) (s : Console) (count : ℕ) (hk : w.kernel_data ≡ some k)
      (registers : s.share_ref ≡ 1)
      (hs : place.get w.host ≡ record s { receiving = some count }) where
    abbrev taken_host : H
    taken_host =
        place.put (record s { receiving = none; input = drop (clamped s count) s.input }) w.host

    abbrev filled : Memory
    filled = copy_to s.read_buffer.address (take (clamped s count) s.input) (memory.get taken_host)

    abbrev pub answered : World H
    answered = record {
      kernel_data =
          some (enqueued 1 2 (0, length (take (clamped s count) s.input) % 2 ^ 32, 0) f p k);
      host = memory.put filled taken_host;
    }

    abbrev args : Args
    args = (0, length (take (clamped s count) s.input) % 2 ^ 32, 0)

    tells :
        (schedule_upcall s.share_ref 2 args >>= expected)
          (record w { host = memory.put filled taken_host })
        ≡ returns (tt, answered)
    tells =
        ap
          (λ n.
            (schedule_upcall n 2 args >>= expected)
              (record w { host = memory.put filled taken_host }))
          registers
        ∙ schedule_last 1 2 args (record w { host = memory.put filled taken_host }) k d f p hk hd h
            hu

    -- `complete_read` where the read is outstanding, from the state of the console on.
    abbrev completed : Console → Outcome (Unit {0} × World H)
    completed x = elim x.receiving [ none ↦ returns (tt, w) | some c ↦ deliver place memory x c w ]

    pub completes : complete_read place memory w ≡ returns (tt, answered)
    unfolding complete_read
    completes =
        ap completed hs
        ∙ ap
            (λ (y : Console).
              (fill place memory s.read_buffer.address (take (clamped s count) s.input)
                  >> (schedule_upcall s.share_ref 2 args >>= expected))
                (store place memory
                  (record y { receiving = none; input = drop (clamped y count) y.input }) w))
            hs
        ∙ tells

    pub answered-Answered : Answered s count w answered
    answered-Answered = (
      clamped s count,
      take (clamped s count) s.input,
      drop (clamped s count) s.input,
      ground arith,
      ground arith,
      min-right (min count s.read_buffer.len) (length s.input),
      λ m wanted room there. ground arith,
      length_taken s count,
      take-drop (clamped s count) s.input,
      apart filled taken_host
          ∙ place.get-put (record s { receiving = none; input = drop (clamped s count) s.input })
              w.host,
      ap (λ m. slice m s.read_buffer.address (clamped s count)) (memory.get-put filled taken_host)
          ∙ ap (slice filled s.read_buffer.address) (sym (length_taken s count))
          ∙ slice-copy_to s.read_buffer.address (take (clamped s count) s.input)
              (memory.get taken_host),
      λ a outside.
          ap (λ m. m a) (memory.get-put filled taken_host)
          ∙ unwritten a outside
          ∙ ap (λ m. m a) (stays _ w.host),
      ap (λ n. some (enqueued 1 2 (0, n % 2 ^ 32, 0) f p k)) (length_taken s count),
    )
      where
        unwritten :
            (a : ℕ)
            → (a < s.read_buffer.address) ⊎ (s.read_buffer.address + clamped s count ≤ a)
            → filled a ≡ memory.get taken_host a
        unwritten a (inl below) =
            copy_to_below s.read_buffer.address (take (clamped s count) s.input)
              (memory.get taken_host) a below
        unwritten a (inr above) =
            copy_to_above s.read_buffer.address (take (clamped s count) s.input)
              (memory.get taken_host) a
              (subst (λ n. s.read_buffer.address + n ≤ a) (sym (length_taken s count)) above)

  module _ (w : World H) (s : Console) (hk : w.kernel_data ≡ some k) (registers : s.share_ref ≡ 1)
      (hs : place.get w.host ≡ s) (count : ℕ) where
    -- The world where the console waits for input.
    abbrev pub waiting : World H
    waiting = store place memory (record s { receiving = some count }) w

    waits : place.get waiting.host ≡ record s { receiving = some count }
    waits = place.get-put (record s { receiving = some count }) w.host

    -- The memory is that of the world before.
    Answered-waiting : (v : World H) → Answered s count waiting v → Answered s count w v
    Answered-waiting v
          (n, sent, rest, wanted, room, there, most, long, parts, taken, filled, others, queued) =
        (
          n,
          sent,
          rest,
          wanted,
          room,
          there,
          most,
          long,
          parts,
          taken,
          filled,
          λ a o. others a o ∙ ap (λ m. m a) (stays _ w.host),
          queued,
        )

    -- The arm of the read command, given whether the console waits for input.
    abbrev arm : Bool → Outcome (Unit {0} × World H)
    arm deferred = if deferred then returns (tt, waiting) else complete_read place memory waiting

    reads : (b : Bool) → s.deferred ≡ b → read place memory count w ≡ arm b
    unfolding read
    reads b e =
        ap
          (λ (x : Console).
            let v = store place memory (record x { receiving = some count }) w in
            if x.deferred then returns (tt, v) else complete_read place memory v)
          hs
        ∙ ap arm e

    finishes :
        (b : ℕ) (v : World H)
        → read place memory count w ≡ returns (tt, v)
        → command place memory 2 count b w ≡ returns (success, v)
    unfolding command
    finishes b v e = bind-returns (read place memory count) (λ _. pure success) e

    -- A fake console that answers at once answers the read command, which succeeds: the bytes that the
    -- request, the read buffer and the input have room for go from the front of the input into the read
    -- buffer, no other byte of memory changes, no read is outstanding, and the upcall with their count
    -- is at the back of the queue. The console is registered as the driver 1, which has an upcall that
    -- is not null under the number 2, and is apart from the memory.
    pub read_delivers :
        (b : ℕ)
        → s.deferred ≡ false
        → (v : World H) × (command place memory 2 count b w ≡ returns (success, v))
          × Answered s count w v
    read_delivers b now = (
      answered waiting s count hk registers waits,
      finishes b (answered waiting s count hk registers waits)
          (reads false now ∙ completes waiting s count hk registers waits),
      Answered-waiting (answered waiting s count hk registers waits)
          (answered-Answered waiting s count hk registers waits),
    )

    module _ (input : List ℕ) where
      -- The world where the input has come.
      abbrev fed : World H
      fed =
          store place memory (record s { receiving = some count; input = s.input ++ input }) waiting

      fed_waits : place.get fed.host ≡ record s { receiving = some count; input = s.input ++ input }
      fed_waits =
          place.get-put (record s { receiving = some count; input = s.input ++ input }) waiting.host

      fires :
          fire_read place memory input waiting
          ≡ returns (
            tt,
            answered fed (record s { input = s.input ++ input }) count hk registers fed_waits,
          )
      unfolding fire_read
      fires =
          ap
            (λ (x : Console).
              complete_read place memory
                (store place memory (record x { input = x.input ++ input }) waiting))
            waits
          ∙ completes fed (record s { input = s.input ++ input }) count hk registers fed_waits

      Answered-fed :
          Answered
            (record s { input = s.input ++ input })
            count
            w
            (answered fed (record s { input = s.input ++ input }) count hk registers fed_waits)
      Answered-fed =
          let (
            n, sent, rest, wanted, room, there, most, long, parts, taken, filled, others, queued,
          ) =
            answered-Answered fed (record s { input = s.input ++ input }) count hk registers
              fed_waits in
          (
            n,
            sent,
            rest,
            wanted,
            room,
            there,
            most,
            long,
            parts,
            taken,
            filled,
            λ x o. others x o ∙ ap (λ m. m x) (stays _ waiting.host ∙ stays _ w.host),
            queued,
          )

    abbrev ended : World H
    ended = store place memory (record s { receiving = none }) waiting

    aborts :
        (a c : ℕ)
        → command place memory 3 a c waiting
          ≡ returns (
            success,
            record { kernel_data = some (enqueued 1 2 (0, 0, 0) f p k); host = ended.host },
          )
    unfolding command abort
    aborts a c =
        bind-returns (abort place memory) (λ _. pure success)
          (ap
              (λ (x : Console).
                let o : Outcome (Unit {0} × World H) = elim x.receiving [
                  | none ↦ returns (tt, waiting)
                  | some _ ↦
                      (schedule_upcall x.share_ref 2 (0, 0, 0) >>= expected)
                        (store place memory (record x { receiving = none }) waiting)
                ] in
                o)
              waits
            ∙ ap (λ n. (schedule_upcall n 2 (0, 0, 0) >>= expected) ended) registers
            ∙ schedule_last 1 2 (0, 0, 0) ended k d f p hk hd h hu)

    -- A fake console that waits for input does not answer the read command at once, which succeeds and
    -- changes no more than that a read is outstanding. `fire_read` then answers it from the input that
    -- there was and the new one behind it, and `abort` ends it with the count zero: no byte leaves the
    -- input or changes in memory. The console is registered as the driver 1, which has an upcall that is
    -- not null under the number 2, and is apart from the memory.
    pub deferred_read_ends :
        (b a c : ℕ) (input : List ℕ)
        → s.deferred ≡ true
        → (command place memory 2 count b w ≡ returns (success, waiting))
          × (is_receiving (place.get waiting.host) ≡ true)
          × ((v : World H) × (fire_read place memory input waiting ≡ returns (tt, v))
              × Answered (record s { input = s.input ++ input }) count w v)
          × (command place memory 3 a c waiting
              ≡ returns (
                success,
                record {
                  kernel_data = some (enqueued 1 2 (0, 0, 0) f p k);
                  host = place.put (record s { receiving = none }) waiting.host;
                },
              ))
    deferred_read_ends b a c input later = (
      finishes b waiting (reads true later),
      ap is_receiving waits,
      (
        answered (fed input) (record s { input = s.input ++ input }) count hk registers
            (fed_waits input),
        fires input,
        Answered-fed input,
      ),
      aborts a c,
    )
