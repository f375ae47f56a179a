-- ===== src/Unittest/AllowDb/Overlap.antt =====
-- Which addresses a database of unittest/src/allow_db.rs covers, its invariant, and the overlap
-- test of `insert_raw`.
use native.Mathlib.Nat.{le_refl}
use libtock_rs.Common.{
  ℕ, ◌+◌, ◌≤◌, ◌<◌, ◌≡◌, ◌⊎◌, inl, inr, Option, none, some, [], ◌∷◌, arith, Bool-cases, false, ltb,
  ltb→lt,
}
use libtock_rs.Unittest.AllowDb.Defs.{Buffers, last_below, or_else}

-- The address lies in one of the buffers.
abbrev pub Covers : Buffers → ℕ → Type 0
Covers [] x = ⊥
Covers ((a, n) ∷ m) x = ((a ≤ x) × (x < a + n)) ⊎ Covers m x

-- The entries are in the order of their addresses, from `lo` on, none is empty, and each ends before
-- the next begins.
abbrev pub IsDb : ℕ → Buffers → Type 0
IsDb lo [] = Unit
IsDb lo ((a, n) ∷ m) = (lo ≤ a) × (0 < n) × IsDb (a + n) m

pub IsDb-mono : (m : Buffers) (lo lo' : ℕ) → lo' ≤ lo → IsDb lo m → IsDb lo' m
IsDb-mono [] lo lo' h d = tt
IsDb-mono ((a, n) ∷ m) lo lo' h d = (omega arith, d.1, d.2)

pub Covers-ge : (m : Buffers) (lo x : ℕ) → IsDb lo m → Covers m x → lo ≤ x
Covers-ge [] lo x d c = absurd c
Covers-ge ((a, n) ∷ m) lo x d (inl c) = omega arith
Covers-ge ((a, n) ∷ m) lo x d (inr c) = omega (arith, Covers-ge m (a + n) x d.2 c)

pub ge : (a b : ℕ) → ltb a b ≡ false → b ≤ a
ge a b h = ground arith

-- What the last entry below `range_end` says of all the others.
abbrev pub Last : ℕ → Buffers → Option (ℕ × ℕ) → Type 0
Last range_end m none = (x : ℕ) → Covers m x → range_end ≤ x
Last range_end m (some (b, l)) =
    (b < range_end)
    × ((x : ℕ) → b ≤ x → x < b + l → Covers m x)
    × (0 < l)
    × ((x : ℕ) → b + l ≤ x → Covers m x → range_end ≤ x)

or_else-Last :
    (range_end b l : ℕ) (m : Buffers) (o : Option (ℕ × ℕ))
    → b < range_end
    → 0 < l
    → IsDb (b + l) m
    → Last range_end m o
    → Last range_end ((b, l) ∷ m) (or_else (b, l) o)
or_else-Last range_end b l m none h pos d rest = (h, λ x p q. inl (p, q), pos, above)
  where
    above : (x : ℕ) → b + l ≤ x → Covers ((b, l) ∷ m) x → range_end ≤ x
    above x p (inl c) = absurd (omega arith)
    above x p (inr c) = rest x c
or_else-Last range_end b l m (some (b', l')) h pos d rest =
    (rest.0, λ x p q. inr (rest.1 x p q), rest.2, above)
  where
    after : b + l ≤ b'
    after = Covers-ge m (b + l) b' d (rest.1 b' (omega arith) (omega arith))

    above : (x : ℕ) → b' + l' ≤ x → Covers ((b, l) ∷ m) x → range_end ≤ x
    above x p (inl c) = absurd (omega (arith, after))
    above x p (inr c) = rest.3 x p c

pub last_below_lem :
    (range_end lo : ℕ) (m : Buffers) → IsDb lo m → Last range_end m (last_below range_end m)
unfolding last_below
last_below_lem range_end lo [] d = λ x c. absurd c
last_below_lem range_end lo ((b, l) ∷ m) d = elim (Bool-cases (ltb b range_end)) [
  | inl e ↦ rw e (
      or_else-Last range_end b l m _ (ltb→lt b range_end e) d.1 d.2
        (last_below_lem range_end (b + l) m d.2))
  | inr e ↦
      rw e
        λ x c. omega (arith, Covers-ge ((b, l) ∷ m) b x (le_refl b, d.1, d.2) c, ge b range_end e)
]
