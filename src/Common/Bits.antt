-- ===== src/Common/Bits.antt =====
-- `a | (b << k)` for `a` below `2 ^ k`: the two parts share no bit, so it is a sum.
use Prim.Native.Nat.{
  ℕ, zero, suc, ◌+◌, ◌*◌, ◌/◌, ◌%◌, ◌^◌, ◌≤◌, ◌<◌, max, bit_or, digits, bit_or-bitwise,
}
use mathlib.Core.Path.{◌≡◌, refl, ap}
use native.Mathlib.Nat.{pow-suc}
use native.Mathlib.Omega.{arith}

-- The digits of an or, on fuel.
abbrev digits_or : ℕ → ℕ → ℕ → ℕ
digits_or = digits (λ top. top) max

-- Any two amounts of fuel that are enough give the same.
digits_or_same :
    (lo hi fuel more : ℕ) → lo ≤ fuel → lo ≤ more → digits_or fuel lo hi ≡ digits_or more lo hi
digits_or_same lo hi zero zero h k = refl
digits_or_same zero hi zero (suc more) h k = refl
digits_or_same zero hi (suc fuel) zero h k = refl
digits_or_same zero hi (suc fuel) (suc more) h k = refl
digits_or_same (suc lo) hi zero more h k = absurd (omega (arith, h))
digits_or_same (suc lo) hi fuel zero h k = absurd (omega (arith, k))
digits_or_same (suc lo) hi (suc fuel) (suc more) h k =
    let halves = digits_or_same (suc lo / 2) (hi / 2) fuel more (omega arith) (omega arith) in
    omega (arith, halves)

or_of_zero : (hi : ℕ) → bit_or 0 hi ≡ hi
or_of_zero = bit_or-bitwise 0

-- An or from the or of the halves.
bit_or-halves : (lo hi : ℕ) → max (lo % 2) (hi % 2) + 2 * bit_or (lo / 2) (hi / 2) ≡ bit_or lo hi
bit_or-halves zero hi = omega (arith, or_of_zero (hi / 2), or_of_zero hi)
bit_or-halves (suc lo) hi =
    let whole = bit_or-bitwise (suc lo) hi in
    let half = bit_or-bitwise (suc lo / 2) (hi / 2) in
    let fuel = digits_or_same (suc lo / 2) (hi / 2) (suc lo / 2) lo (omega arith) (omega arith) in
    omega (arith, whole, half, fuel)

pub bit_or-shift : (k a b : ℕ) → a < 2 ^ k → bit_or a (b * 2 ^ k) ≡ a + b * 2 ^ k
bit_or-shift zero zero b h = omega (arith, or_of_zero (b * 2 ^ 0))
bit_or-shift zero (suc a) b h = absurd (omega arith)
bit_or-shift (suc k) a b h = omega (
  arith,
  bit_or-halves a (b * 2 ^ suc k),
  bit_or-shift k (a / 2) b (omega (arith, pow-suc 2 k)),
  shifted,
  twice,
)
  where
    twice : b * 2 ^ suc k ≡ b * 2 ^ k * 2
    twice = rw (pow-suc 2 k) (omega arith)

    shifted : bit_or (a / 2) (b * 2 ^ suc k / 2) ≡ bit_or (a / 2) (b * 2 ^ k)
    shifted = ap (bit_or (a / 2)) (omega (arith, twice))
