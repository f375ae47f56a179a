-- ===== src/Common/Maps.antt =====
-- A `HashMap<u32, V>` as an association list in which the first entry of a key counts.
use Prim.Native.Nat.{ℕ}
use mathlib.Core.Path.{◌≡◌}
use mathlib.Core.Logic.{◌≢◌}
use mathlib.Core.Bool.{true, false}
use mathlib.Core.List.{List, [], ◌∷◌}
use mathlib.Core.Option.{Option, none, some}
use native.Mathlib.Omega.{arith}
use libtock_rs.Common.Tests.{◌==◌, if◌then◌else◌}

module _ {ℓ} {V : Type ℓ} where
  -- `get`
  abbrev pub lookup : ℕ → List (ℕ × V) → Option V
  lookup key [] = none
  lookup key (entry ∷ entries) = elim (entry.0 == key) [
    | true ↦ some entry.1
    | false ↦ lookup key entries
  ]

  -- `insert`, which overwrites the value of a present key.
  abbrev pub insert : ℕ → V → List (ℕ × V) → List (ℕ × V)
  insert key value [] = (key, value) ∷ []
  insert key value (entry ∷ entries) = elim (entry.0 == key) [
    | true ↦ (key, value) ∷ entries
    | false ↦ entry ∷ insert key value entries
  ]

  -- What `remove` leaves: no entry of the key.
  abbrev pub erase : ℕ → List (ℕ × V) → List (ℕ × V)
  erase key [] = []
  erase key (entry ∷ entries) = elim (entry.0 == key) [
    | true ↦ erase key entries
    | false ↦ entry ∷ erase key entries
  ]

  pub lookup-erase :
      (key other : ℕ) (entries : List (ℕ × V))
      → lookup other (erase key entries) ≡ (if key == other then none else lookup other entries)
  lookup-erase key other [] = ground arith
  lookup-erase key other (entry ∷ entries) = ground (arith, lookup-erase key other entries)

  pub lookup-insert :
      (key other : ℕ) (value : V) (entries : List (ℕ × V))
      → lookup other (insert key value entries)
        ≡ (if key == other then some value else lookup other entries)
  lookup-insert key other value [] = ground arith
  lookup-insert key other value (entry ∷ entries) =
      ground (arith, lookup-insert key other value entries)

  pub lookup-insert_self :
      (key : ℕ) (value : V) (entries : List (ℕ × V))
      → lookup key (insert key value entries) ≡ some value
  lookup-insert_self key value entries = ground (arith, lookup-insert key key value entries)

  pub lookup-insert_ne :
      (key other : ℕ) (value : V) (entries : List (ℕ × V))
      → key ≢ other
      → lookup other (insert key value entries) ≡ lookup other entries
  lookup-insert_ne key other value entries h = ground (arith, lookup-insert key other value entries)
