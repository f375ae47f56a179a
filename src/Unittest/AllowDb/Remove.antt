-- ===== src/Unittest/AllowDb/Remove.antt =====
-- Giving a buffer back, in unittest/src/allow_db.rs: `remove_ro_buffer` and `remove_rw_buffer`.
use native.Mathlib.Nat.{le_refl}
use libtock_rs.Common.{
  ℕ, ◌+◌, ◌<◌, ◌≡◌, refl, ◌⊎◌, inl, inr, [], ◌∷◌, arith, Bool-cases, ok, ◌==◌, ==→eq, false,
}
use libtock_rs.Unittest.AllowDb.Defs.{
  Buffers, insert, remove, AllowBuffer, insert_ro_buffer, insert_rw_buffer, remove_ro_buffer,
  remove_rw_buffer,
}
use libtock_rs.Unittest.AllowDb.Overlap.{Covers, IsDb, IsDb-mono, Covers-ge}
use libtock_rs.Unittest.AllowDb.Insert.{Overlaps, insert_raw-Decides}

pub remove-IsDb : (lo a : ℕ) (m : Buffers) → IsDb lo m → IsDb lo (remove a m)
unfolding remove
remove-IsDb lo a [] d = tt
remove-IsDb lo a ((b, l) ∷ m) d =
    ground (arith, remove-IsDb (b + l) a m d.2, IsDb-mono m (b + l) lo (omega arith) d.2)

-- An entry whose key is below all the others is not there.
pub remove_absent : (a lo : ℕ) (m : Buffers) → a < lo → IsDb lo m → remove a m ≡ m
unfolding remove
remove_absent a lo [] h d = refl
remove_absent a lo ((b, l) ∷ m) h d = ground (arith, remove_absent a (b + l) m (omega arith) d.2)

pub remove-insert :
    (lo a n : ℕ) (m : Buffers) → IsDb lo m → ¬ Overlaps a n m → 0 < n → remove a (insert a n m) ≡ m
unfolding remove insert
remove-insert lo a n [] d apart pos = ground arith
remove-insert lo a n ((b, l) ∷ m) d apart pos =
    let ne : ¬ (a ≡ b) = λ e. apart (a, le_refl a, omega arith, inl (omega arith, omega arith)) in
    ground (arith, ne, remove-insert (b + l) a n m d.2 (λ o. apart (o.0, o.1, o.2, inr o.3)) pos)

-- A buffer that is not empty and meets no active one is accepted.
pub insert_ro_fits :
    (lo a n : ℕ) (m : Buffers)
    → 0 < n
    → IsDb lo m
    → ¬ Overlaps a n m
    → insert_ro_buffer a n m ≡ ok (record { address = a; len = n }, insert a n m)
unfolding insert_ro_buffer
insert_ro_fits lo a n m pos d apart = elim (insert_raw-Decides lo a n m pos d) [
  | inl (o, e) ↦ absurd (apart o)
  | inr (apart, e) ↦ ground arith
]

pub insert_rw_fits :
    (lo a n : ℕ) (m : Buffers)
    → 0 < n
    → IsDb lo m
    → ¬ Overlaps a n m
    → insert_rw_buffer a n m ≡ ok (record { address = a; len = n }, insert a n m)
unfolding insert_rw_buffer
insert_rw_fits lo a n m pos d apart = elim (insert_raw-Decides lo a n m pos d) [
  | inl (o, e) ↦ absurd (apart o)
  | inr (apart, e) ↦ ground arith
]

-- Sharing a read-only buffer that is not empty and giving it back leaves the database as it was, and
-- returns the address and length that were passed in.
pub remove-insert_ro :
    (lo a n : ℕ) (m m' : Buffers) (b : AllowBuffer)
    → 0 < n
    → IsDb lo m
    → insert_ro_buffer a n m ≡ ok (b, m')
    → remove_ro_buffer b m' ≡ ((a, n), m)
unfolding insert_ro_buffer remove_ro_buffer
remove-insert_ro lo a n m m' b pos d h = elim (insert_raw-Decides lo a n m pos d) [
  | inl (o, e) ↦ ground arith
  | inr (apart, e) ↦ ground (arith, remove-insert lo a n m d apart pos)
]

-- Sharing a read-write buffer that is not empty and giving it back leaves the database as it was, and
-- returns the address and length that were passed in.
pub remove-insert_rw :
    (lo a n : ℕ) (m m' : Buffers) (b : AllowBuffer)
    → 0 < n
    → IsDb lo m
    → insert_rw_buffer a n m ≡ ok (b, m')
    → remove_rw_buffer b m' ≡ ((a, n), m)
unfolding insert_rw_buffer remove_rw_buffer
remove-insert_rw lo a n m m' b pos d h = elim (insert_raw-Decides lo a n m pos d) [
  | inl (o, e) ↦ ground arith
  | inr (apart, e) ↦ ground (arith, remove-insert lo a n m d apart pos)
]

-- An active buffer begins at the address.
abbrev pub Starts : ℕ → Buffers → Type 0
Starts a [] = ⊥
Starts a ((b, l) ∷ m) = (a ≡ b) ⊎ Starts a m

Starts-Covers : (lo a : ℕ) (m : Buffers) → IsDb lo m → Starts a m → Covers m a
Starts-Covers lo a [] d s = s
Starts-Covers lo a ((b, l) ∷ m) d (inl e) = inl (omega arith, omega arith)
Starts-Covers lo a ((b, l) ∷ m) d (inr s) = inr (Starts-Covers (b + l) a m d.2 s)

remove_later :
    (lo a b l : ℕ) (m : Buffers)
    → IsDb lo ((b, l) ∷ m)
    → (Starts a m → ¬ Covers (remove a m) a)
    → (a == b) ≡ false
    → (a ≡ b) ⊎ Starts a m
    → ¬ Covers ((b, l) ∷ remove a m) a
remove_later lo a b l m d gone e (inl same) c = absurd (ground arith)
remove_later lo a b l m d gone e (inr s) (inl c) =
    omega (arith, Covers-ge m (b + l) a d.2 (Starts-Covers (b + l) a m d.2 s))
remove_later lo a b l m d gone e (inr s) (inr c) = gone s c

remove-Starts : (lo a : ℕ) (m : Buffers) → IsDb lo m → Starts a m → ¬ Covers (remove a m) a
unfolding remove
remove-Starts lo a [] d s = λ _. s
remove-Starts lo a ((b, l) ∷ m) d s = elim (Bool-cases (a == b)) [
  | inl e ↦ rw e λ c. omega (arith, ==→eq a b e, Covers-ge m (b + l) a d.2 c)
  | inr e ↦ rw e λ c. remove_later lo a b l m d (remove-Starts (b + l) a m d.2) e s c
]

-- A buffer of length zero is accepted at the address of an active buffer, and giving it back takes
-- the active buffer out of the database: its first address was covered and is so no longer.
pub zero_len_evicts :
    (lo a : ℕ) (m : Buffers)
    → IsDb lo m
    → Starts a m
    → let b : AllowBuffer = record { address = a; len = 0 } in
      (insert_ro_buffer a 0 m ≡ ok (b, m))
      × (insert_rw_buffer a 0 m ≡ ok (b, m))
      × Covers m a
      × (¬ Covers (remove_ro_buffer b m).1 a)
      × (¬ Covers (remove_rw_buffer b m).1 a)
unfolding insert_ro_buffer insert_rw_buffer remove_ro_buffer remove_rw_buffer
zero_len_evicts lo a m d s =
    (refl, refl, Starts-Covers lo a m d s, remove-Starts lo a m d s, remove-Starts lo a m d s)
