-- ===== src/Unittest/Memory.antt =====
-- The memory behind the buffers of unittest/src/allow_db.rs: the bytes of `RoAllowBuffer` and
-- `RwAllowBuffer`. An address is a number, and the memory a function of it.
use libtock_rs.Common.{
  ℕ, zero, suc, ◌+◌, ◌<◌, ◌≤◌, ◌≡◌, refl, ap, List, [], ◌∷◌, ◌==◌, if◌then◌else◌, length, arith,
  ==-refl, ◌∙◌,
}
use libtock_rs.Unittest.AllowDb.{AllowBuffer}

abbrev pub Memory : Type 0
Memory = ℕ → ℕ

-- The slice of a length at an address.
abbrev pub slice : Memory → ℕ → ℕ → List ℕ
slice m address zero = []
slice m address (suc n) = m address ∷ slice m (address + 1) n

-- `Deref` of both buffers: the slice is empty where the length is zero.
unfoldable pub bytes : Memory → AllowBuffer → List ℕ
bytes m buffer = slice m buffer.address buffer.len

-- `copy_from_slice` into the first bytes of a buffer.
unfoldable pub copy_to : ℕ → List ℕ → Memory → Memory
copy_to address [] m = m
copy_to address (x ∷ xs) m = λ a. if a == address then x else copy_to (address + 1) xs m a

pub length-slice : (m : Memory) (address n : ℕ) → length (slice m address n) ≡ n
length-slice m address zero = refl
length-slice m address (suc n) = ap suc (length-slice m (address + 1) n)

-- Bytes outside of those that are written stay.
pub copy_to_below :
    (address : ℕ) (xs : List ℕ) (m : Memory) (a : ℕ) → a < address → copy_to address xs m a ≡ m a
unfolding copy_to
copy_to_below address [] m a h = refl
copy_to_below address (x ∷ xs) m a h =
    ground (arith, copy_to_below (address + 1) xs m a (omega (arith, h)))

pub copy_to_above :
    (address : ℕ) (xs : List ℕ) (m : Memory) (a : ℕ)
    → address + length xs ≤ a
    → copy_to address xs m a ≡ m a
unfolding copy_to
copy_to_above address [] m a h = refl
copy_to_above address (x ∷ xs) m a h =
    ground (arith, copy_to_above (address + 1) xs m a (omega (arith, h)))

slice_eq :
    (m m' : Memory) (address n : ℕ)
    → ((a : ℕ) → address ≤ a → m a ≡ m' a)
    → slice m address n ≡ slice m' address n
slice_eq m m' address zero h = refl
slice_eq m m' address (suc n) h =
    rw (h address (omega arith))
      (ap (λ xs. m' address ∷ xs) (slice_eq m m' (address + 1) n (λ a le. h a (omega (arith, le)))))

-- What is written is read back.
pub slice-copy_to :
    (address : ℕ) (xs : List ℕ) (m : Memory) → slice (copy_to address xs m) address (length xs) ≡ xs
unfolding copy_to
slice-copy_to address [] m = refl
slice-copy_to address (x ∷ xs) m = rw (==-refl address) (
    ap (λ ys. x ∷ ys)
      (slice_eq (copy_to address (x ∷ xs) m) (copy_to (address + 1) xs m) (address + 1) (length xs)
          (λ a le. ground (arith, le))
        ∙ slice-copy_to (address + 1) xs m))
