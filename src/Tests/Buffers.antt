-- ===== src/Tests/Buffers.antt =====
-- Tests of unittest/src/allow_db.rs.
use libtock_rs.Common.{ℕ, ◌+◌, ◌<◌, ◌≤◌, ◌≡◌, refl, ◌↔◌, ◌⊎◌, inl, [], ◌∷◌, ok, err, arith}
use libtock_rs.Unittest.AllowDb.{
  Buffers, AllowBuffer, insert_raw, insert_ro_buffer, insert_rw_buffer, remove_ro_buffer,
  remove_rw_buffer, overlap_error, last_below, insert,
}
use libtock_rs.Unittest.AllowDb.Overlap.{Covers, IsDb}
use libtock_rs.Unittest.AllowDb.Insert.{Overlaps, insert_raw-Overlaps, insert_raw-IsDb}
use libtock_rs.Unittest.AllowDb.Remove.{remove-insert_ro, zero_len_evicts}

-- Two buffers, at 10 to 14 and at 20 to 29.
abbrev two : Buffers
two = (10, 5) ∷ (20, 10) ∷ []

two-IsDb : IsDb 0 two
two-IsDb = (omega arith, omega arith, (omega arith, omega arith, tt))

abbrev three : Buffers
three = (10, 5) ∷ (15, 5) ∷ (20, 10) ∷ []

abbrev fifteen : AllowBuffer
fifteen = record { address = 15; len = 5 }

insert_raw-Overlaps_example : (insert_raw 14 2 two ≡ err overlap_error) ↔ Overlaps 14 2 two
insert_raw-Overlaps_example = insert_raw-Overlaps 0 14 2 two (omega arith) two-IsDb

insert_raw-IsDb_example :
    IsDb 0 three × ((x : ℕ) → Covers three x ↔ (((15 ≤ x) × (x < 15 + 5)) ⊎ Covers two x))
insert_raw-IsDb_example =
    insert_raw-IsDb 0 15 5 two three (omega arith) (omega arith) two-IsDb
      (unfold insert_raw last_below insert in refl)

remove-insert_ro_example : remove_ro_buffer fifteen three ≡ ((15, 5), two)
remove-insert_ro_example =
    remove-insert_ro 0 15 5 two three fifteen (omega arith) two-IsDb
      (unfold insert_ro_buffer insert_raw last_below insert in refl)

abbrev empty_at_ten : AllowBuffer
empty_at_ten = record { address = 10; len = 0 }

zero_len_evicts_example :
    (insert_ro_buffer 10 0 two ≡ ok (empty_at_ten, two))
    × (insert_rw_buffer 10 0 two ≡ ok (empty_at_ten, two))
    × Covers two 10
    × (¬ Covers (remove_ro_buffer empty_at_ten two).1 10)
    × (¬ Covers (remove_rw_buffer empty_at_ten two).1 10)
zero_len_evicts_example = zero_len_evicts 0 10 two two-IsDb (inl refl)
