-- ===== src/Unittest/Fake/KeyValue/Stores.antt =====
-- unittest/src/fake/key_value/mod.rs as a map from keys to values.
use libtock_rs.Common.{
  ℕ, ◌%◌, ◌<◌, ◌^◌, ◌≡◌, refl, ◌∙◌, ap, true, Option, none, some, lookup, length, take, min,
  returns, bind-returns, panic, ◌>>=◌, ◌>>◌, pure, if◌then◌else◌,
}
use libtock_rs.Common.Bytes.{Bytes, bytes_eq, is_utf8, get-insert, get-remove}
use libtock_rs.Common.Bytes as Db
use libtock_rs.Platform.ErrorCode.{as_u32, no_support}
use libtock_rs.Platform.AsyncCall.{Place}
use libtock_rs.Unittest.CommandReturn.{success}
use libtock_rs.Unittest.KernelData.{KernelData, DriverData}
use libtock_rs.Unittest.Memory.{Memory, bytes, copy_to}
use libtock_rs.Unittest.World.{World, M}
use libtock_rs.Unittest.ShareData.{schedule_upcall, expected}
use libtock_rs.Unittest.Fake.Subscribed.{enqueued, schedule_last}
use libtock_rs.Unittest.Fake.KeyValue.{
  KeyValue, Database, tell, replace, with_key, with_pair, with_str, get_match, add_match,
  update_match, delete_match, get, set, add, update, delete, command,
}

-- The commands on a map, and their numbers.
pub data Op : Type 0 where
  get_op set_op delete_op add_op update_op : Op

abbrev pub number : Op → ℕ
number get_op = 1
number set_op = 2
number delete_op = 3
number add_op = 4
number update_op = 5

abbrev pub Map : Type 0
Map = Bytes → Option Bytes

abbrev pub assign : Bytes → Bytes → Map → Map
assign k v m = λ k'. if bytes_eq k k' then some v else m k'

abbrev pub discard : Bytes → Map → Map
discard k m = λ k'. if bytes_eq k k' then none else m k'

-- What a command with a key and a value means, by what the map has at the key: the map after it, the
-- status, and the value that it hands out.
abbrev pub reply : Op → Bytes → Bytes → Map → Option Bytes → Map × ℕ × Option Bytes
reply set_op k v m found = (assign k v m, 0, none)
reply get_op k v m none = (m, as_u32 no_support, none)
reply get_op k v m (some x) = (m, 0, some x)
reply delete_op k v m none = (m, as_u32 no_support, none)
reply delete_op k v m (some x) = (discard k m, 0, none)
reply add_op k v m none = (assign k v m, 0, none)
reply add_op k v m (some x) = (m, as_u32 no_support, none)
reply update_op k v m none = (m, as_u32 no_support, none)
reply update_op k v m (some x) = (assign k v m, 0, none)

abbrev pub meaning : Op → Bytes → Bytes → Map → Map × ℕ × Option Bytes
meaning op k v m = reply op k v m (m k)

abbrev pub handed_length : Option Bytes → ℕ
handed_length none = 0
handed_length (some x) = length x % 2 ^ 32

-- Memory after a value is handed out into the buffer of the driver.
abbrev pub handed : KeyValue → Option Bytes → Memory → Memory
handed s none m = m
handed s (some x) m =
    copy_to s.buffer_out_val.address (take (min s.buffer_out_val.len (length x)) x) m

module _ {H : Type 0} (place : Place H KeyValue) (memory : Place H Memory) (kd : KernelData)
    (d : DriverData) (f p : ℕ) (hd : lookup 327683 kd.drivers ≡ some d) (h : 0 < d.num_upcalls)
    (hu : lookup 0 d.upcalls ≡ some (record { fn_pointer = some f; payload = p }))
    (stays : (t : KeyValue) (x : H) → memory.get (place.put t x) ≡ memory.get x)
    (apart : (m : Memory) (x : H) → place.get (memory.put m x) ≡ place.get x) where
  -- From the driver's state `s` in the world `w` to the database `db` in the world `v`, the reply is as the
  -- triple says: the map, the status in the upcall at the back of the queue, and the value in memory.
  abbrev pub Replies : KeyValue → World H → Database → World H → Map × ℕ × Option Bytes → Type 0
  Replies s w db v (m, status, value) =
      ((k' : Bytes) → Db.get k' db ≡ m k')
      × (place.get v.host ≡ record s { database = db })
      × (memory.get v.host ≡ handed s value (memory.get w.host))
      × (v.kernel_data ≡ some (enqueued 327683 0 (status, handed_length value, 0) f p kd))

  abbrev pub arm : Op → KeyValue → Bytes → Bytes → M H (Unit {0})
  arm get_op s k v = get place memory s k
  arm set_op s k v = set place memory s k v
  arm delete_op s k v = delete place memory s k
  arm add_op s k v = add place memory s k v
  arm update_op s k v = update place memory s k v

  module _ (s : KeyValue) (k v : Bytes) (w : World H) (registers : s.share_ref ≡ 327683)
      (hk : w.kernel_data ≡ some kd) (hs : place.get w.host ≡ s) where
    abbrev Means : Op → Map × ℕ × Option Bytes → Type 0
    Means op r =
        (db : Database) × (w' : World H) × (arm op s k v w ≡ returns (tt, w')) × Replies s w db w' r

    abbrev map : Map
    map k' = Db.get k' s.database

    -- The world where the reply is queued, given the state outside the kernel.
    abbrev queued : ℕ → ℕ → H → World H
    queued status len host = record {
      kernel_data = some (enqueued 327683 0 (status, len, 0) f p kd);
      host = host;
    }

    tells :
        (status len : ℕ) (host : H)
        → tell place memory s status len (record w { host = host })
          ≡ returns (tt, queued status len host)
    tells status len host =
        ap (λ n. (schedule_upcall n 0 (status, len, 0) >>= expected) (record w { host = host }))
          registers
        ∙ schedule_last 327683 0 (status, len, 0) (record w { host = host }) kd d f p hk hd h hu

    -- A command that changes nothing.
    refuses :
        (op : Op)
        → arm op s k v w ≡ tell place memory s (as_u32 no_support) 0 w
        → Means op (map, as_u32 no_support, none)
    refuses op e = (
      s.database,
      queued (as_u32 no_support) 0 w.host,
      e ∙ tells (as_u32 no_support) 0 w.host,
      (λ k'. refl, hs, refl, refl),
    )

    -- A command that stores a database.
    stores :
        (op : Op) (db : Database) (m : Map)
        → arm op s k v w ≡ (replace place memory s db >> tell place memory s 0 0) w
        → ((k' : Bytes) → Db.get k' db ≡ m k')
        → Means op (m, 0, none)
    stores op db m e views =
        let host : H = place.put (record s { database = db }) w.host in
        (
          db,
          queued 0 0 host,
          e ∙ tells 0 0 host,
          (
            views,
            place.get-put (record s { database = db }) w.host,
            stays (record s { database = db }) w.host,
            refl,
          ),
        )

    -- The get command where there is a value.
    hands :
        (x : Bytes)
        → arm get_op s k v w ≡ get_match place memory s (some x) w
        → Means get_op (map, 0, some x)
    hands x e =
        let m : Memory = handed s (some x) (memory.get w.host) in
        (
          s.database,
          queued 0 (length x % 2 ^ 32) (memory.put m w.host),
          e ∙ tells 0 (length x % 2 ^ 32) (memory.put m w.host),
          (λ k'. refl, apart m w.host ∙ hs, memory.get-put m w.host, refl),
        )

    abbrev found : Option Bytes
    found = Db.get k s.database

    assigned : (k' : Bytes) → Db.get k' (Db.insert k v s.database) ≡ assign k v map k'
    assigned k' = get-insert k k' v s.database

    discarded : (k' : Bytes) → Db.get k' (Db.remove k s.database) ≡ discard k map k'
    discarded k' = get-remove k k' s.database

    by_found : (op : Op) (o : Option Bytes) → found ≡ o → Means op (reply op k v map o)
    unfolding get set add update delete
    by_found get_op none e = refuses get_op (ap (λ o. get_match place memory s o w) e)
    by_found get_op (some x) e = hands x (ap (λ o. get_match place memory s o w) e)
    by_found set_op o e = stores set_op (Db.insert k v s.database) (assign k v map) refl assigned
    by_found delete_op none e = refuses delete_op (ap (λ o. delete_match place memory s k o w) e)
    by_found delete_op (some x) e =
        stores delete_op (Db.remove k s.database) (discard k map)
          (ap (λ o. delete_match place memory s k o w) e) discarded
    by_found add_op none e =
        stores add_op (Db.insert k v s.database) (assign k v map)
          (ap (λ o. add_match place memory s k v o w) e) assigned
    by_found add_op (some x) e = refuses add_op (ap (λ o. add_match place memory s k v o w) e)
    by_found update_op none e = refuses update_op (ap (λ o. update_match place memory s k v o w) e)
    by_found update_op (some x) e =
        stores update_op (Db.insert k v s.database) (assign k v map)
          (ap (λ o. update_match place memory s k v o w) e) assigned

    module _ (key : bytes (memory.get w.host) s.buffer_in_key ≡ k)
        (value : bytes (memory.get w.host) s.buffer_in_val ≡ v) (key_valid : is_utf8 k ≡ true)
        (value_valid : is_utf8 v ≡ true) where
      -- A command with a key, and one with a key and a value, whose arm returns.
      with_key_succeeds :
          (body : KeyValue → Bytes → M H (Unit {0})) (w' : World H)
          → body s k w ≡ returns (tt, w')
          → with_key place memory body w ≡ returns (success, w')
      with_key_succeeds body w' run =
          ap
            (λ (x : KeyValue).
              let y = bytes (memory.get w.host) x.buffer_in_key in
              (with_str y (body x y) >> pure success) w)
            hs
          ∙ ap (λ y. (with_str y (body s y) >> pure success) w) key
          ∙ ap (λ b. ((if b then body s k else panic) >> pure success) w) key_valid
          ∙ bind-returns (body s k) (λ _. pure success) run

      with_pair_succeeds :
          (body : KeyValue → Bytes → Bytes → M H (Unit {0})) (w' : World H)
          → body s k v w ≡ returns (tt, w')
          → with_pair place memory body w ≡ returns (success, w')
      with_pair_succeeds body w' run =
          ap
            (λ (x : KeyValue).
              let y = bytes (memory.get w.host) x.buffer_in_key in
              let z = bytes (memory.get w.host) x.buffer_in_val in
              (with_str y (with_str z (body x y z)) >> pure success) w)
            hs
          ∙ ap
              (λ y.
                (with_str y (
                      with_str (bytes (memory.get w.host) s.buffer_in_val)
                        (body s y (bytes (memory.get w.host) s.buffer_in_val)))
                    >> pure success)
                  w)
              key
          ∙ ap (λ z. (with_str k (with_str z (body s k z)) >> pure success) w) value
          ∙ ap (λ b. ((if b then with_str v (body s k v) else panic) >> pure success) w) key_valid
          ∙ ap (λ b. ((if b then body s k v else panic) >> pure success) w) value_valid
          ∙ bind-returns (body s k v) (λ _. pure success) run

      runs :
          (op : Op) (a b : ℕ) (w' : World H)
          → arm op s k v w ≡ returns (tt, w')
          → command place memory (number op) a b w ≡ returns (success, w')
      unfolding command
      runs get_op a b w' run = with_key_succeeds (get place memory) w' run
      runs set_op a b w' run = with_pair_succeeds (set place memory) w' run
      runs delete_op a b w' run = with_key_succeeds (delete place memory) w' run
      runs add_op a b w' run = with_pair_succeeds (add place memory) w' run
      runs update_op a b w' run = with_pair_succeeds (update place memory) w' run

      -- The fake key-value store is a map: each of its commands get, set, delete, add and update succeeds,
      -- and what it stores, the status and the length in the upcall at the back of the queue, and the bytes
      -- that it copies into the buffer for a value are what the command means for the map from keys to
      -- values, given the bytes of the buffers that it holds for a key and a value; nothing else of the
      -- driver, of memory and of the kernel changes. Both are UTF-8, the driver is registered as 327683,
      -- which has an upcall that is not null under the number 0, in its range, and it is apart from memory.
      pub store_refines :
          (op : Op) (a b : ℕ)
          → (db : Database) × (w' : World H) × (command place memory (number op) a b w
              ≡ returns (success, w'))
            × Replies s w db w' (meaning op k v (λ k'. Db.get k' s.database))
      store_refines op a b =
          let (db, w', run, replies) = by_found op found refl in
          (db, w', runs op a b w' run, replies)
