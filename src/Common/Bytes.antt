-- ===== src/Common/Bytes.antt =====
-- Byte strings: their equality, `str::from_utf8`, and a `HashMap<String, V>` as an association list in
-- which the first entry of a key counts. A `String` is the list of its bytes.
use Prim.Native.Nat.{ℕ, zero, suc}
use mathlib.Core.Path.{◌≡◌, refl, sym, ap, ◌∙◌}
use mathlib.Core.Logic.{inl, inr}
use mathlib.Core.Bool.{Bool, true, false, ◌&&◌}
use mathlib.Core.List.{List, [], ◌∷◌}
use mathlib.Core.Option.{Option, none, some}
use native.Mathlib.Omega.{arith}
use libtock_rs.Common.Tests.{◌==◌, ltb, leb, if◌then◌else◌, Bool-cases, ==→eq, ==-refl}

abbrev pub Bytes : Type 0
Bytes = List ℕ

abbrev pub bytes_eq : Bytes → Bytes → Bool
bytes_eq [] [] = true
bytes_eq [] (b ∷ bs) = false
bytes_eq (a ∷ as') [] = false
bytes_eq (a ∷ as') (b ∷ bs) = a == b && bytes_eq as' bs

-- The bytes that may follow a first byte: how many, and the range of the next one. Those after that are
-- from 0x80 to 0xBF.
abbrev pub follow : ℕ → Option (ℕ × ℕ × ℕ)
follow b =
    if ltb b 128
    then some (0, 128, 191)
    else if ltb b 194
    then none
    else if ltb b 224
    then some (1, 128, 191)
    else if b == 224
    then some (2, 160, 191)
    else if b == 237
    then some (2, 128, 159)
    else if ltb b 240
    then some (2, 128, 191)
    else if b == 240
    then some (3, 144, 191)
    else if ltb b 244
    then some (3, 128, 191)
    else if b == 244
    then some (3, 128, 143)
    else none

-- Whether the bytes are UTF-8, where so many bytes follow of a character that has begun, the next one
-- from `lo` to `hi`.
abbrev pub continues : ℕ → ℕ → ℕ → Bytes → Bool
continues zero lo hi [] = true
continues (suc n) lo hi [] = false
continues zero lo hi (b ∷ bs) = elim (follow b) [
  | none ↦ false
  | some (n, lo', hi') ↦ continues n lo' hi' bs
]
continues (suc n) lo hi (b ∷ bs) = leb lo b && leb b hi && continues n 128 191 bs

-- `str::from_utf8(…).is_ok()`
unfoldable pub is_utf8 : Bytes → Bool
is_utf8 bs = continues 0 128 191 bs

pub bytes_eq_refl : (a : Bytes) → bytes_eq a a ≡ true
bytes_eq_refl [] = refl
bytes_eq_refl (x ∷ xs) = rw (==-refl x) (bytes_eq_refl xs)

bytes_eq→eq : (a b : Bytes) → bytes_eq a b ≡ true → a ≡ b
bytes_eq→eq [] [] h = refl
bytes_eq→eq [] (y ∷ ys) h = absurd (cc h)
bytes_eq→eq (x ∷ xs) [] h = absurd (cc h)
bytes_eq→eq (x ∷ xs) (y ∷ ys) h = elim (Bool-cases (x == y)) [
  | inl same ↦
      let e : x ≡ y = ==→eq x y same in
      let es : xs ≡ ys = bytes_eq→eq xs ys (ground arith) in
      ap (λ z. z ∷ xs) e ∙ ap (λ zs. y ∷ zs) es
  | inr other ↦ absurd (ground arith)
]

-- Two keys that differ are not both a third one.
differs_from : (a b c : Bytes) → bytes_eq a b ≡ false → bytes_eq a c ≡ true → bytes_eq b c ≡ false
differs_from a b c ne e = elim (Bool-cases (bytes_eq b c)) [
  | inl same ↦
      let eq : bytes_eq a b ≡ true =
        ap (λ x. bytes_eq x b) (bytes_eq→eq a c e ∙ sym (bytes_eq→eq b c same)) ∙ bytes_eq_refl b in
      absurd (cc)
  | inr other ↦ other
]

module _ {V : Type 0} where
  abbrev pub get : Bytes → List (Bytes × V) → Option V
  get key [] = none
  get key (entry ∷ entries) = if bytes_eq entry.0 key then some entry.1 else get key entries

  -- `insert`, which overwrites the value of a present key.
  abbrev pub insert : Bytes → V → List (Bytes × V) → List (Bytes × V)
  insert key value [] = (key, value) ∷ []
  insert key value (entry ∷ entries) =
      if bytes_eq entry.0 key then (key, value) ∷ entries else entry ∷ insert key value entries

  -- What `remove` leaves: no entry of the key.
  abbrev pub remove : Bytes → List (Bytes × V) → List (Bytes × V)
  remove key [] = []
  remove key (entry ∷ entries) =
      if bytes_eq entry.0 key then remove key entries else entry ∷ remove key entries

  pub get-insert :
      (key other : Bytes) (value : V) (entries : List (Bytes × V))
      → get other (insert key value entries)
        ≡ (if bytes_eq key other then some value else get other entries)
  get-insert key other value [] = refl
  get-insert key other value (entry ∷ entries) = elim (Bool-cases (bytes_eq entry.0 key)) [
    | inl same ↦
        let e : bytes_eq entry.0 other ≡ bytes_eq key other =
          ap (λ k. bytes_eq k other) (bytes_eq→eq entry.0 key same) in
        ground arith
    | inr differs ↦ elim (Bool-cases (bytes_eq entry.0 other)) [
      | inl first ↦
          let last : bytes_eq key other ≡ false = differs_from entry.0 key other differs first in
          ground arith
      | inr later ↦ ground (arith, get-insert key other value entries)
    ]
  ]

  pub get-remove :
      (key other : Bytes) (entries : List (Bytes × V))
      → get other (remove key entries) ≡ (if bytes_eq key other then none else get other entries)
  get-remove key other [] = elim (Bool-cases (bytes_eq key other)) [
    | inl c ↦ rw c refl
    | inr c ↦ rw c refl
  ]
  get-remove key other (entry ∷ entries) = elim (Bool-cases (bytes_eq entry.0 key)) [
    | inl same ↦
        let e : bytes_eq entry.0 other ≡ bytes_eq key other =
          ap (λ k. bytes_eq k other) (bytes_eq→eq entry.0 key same) in
        ground (arith, get-remove key other entries)
    | inr differs ↦ elim (Bool-cases (bytes_eq entry.0 other)) [
      | inl first ↦
          let last : bytes_eq key other ≡ false = differs_from entry.0 key other differs first in
          ground arith
      | inr later ↦ ground (arith, get-remove key other entries)
    ]
  ]
