-- ===== src/Unittest/Fake/Lists.antt =====
-- The arrays of the fake drivers: a cell that is set, and the bounds of an index.
use libtock_rs.Common.{
  ℕ, zero, suc, ◌<◌, ◌≤◌, ◌≡◌, refl, none, some, List, [], ◌∷◌, length, get_elem?, set, ◌==◌,
  if◌then◌else◌, arith,
}

pub get_elem?-set :
    {A : Type 0} (xs : List A) (i j : ℕ) (a b : A)
    → get_elem? xs i ≡ some a
    → get_elem? (set xs i b) j ≡ (if i == j then some b else get_elem? xs j)
get_elem?-set [] i j a b h = absurd (cc h)
get_elem?-set (x ∷ xs) zero zero a b h = refl
get_elem?-set (x ∷ xs) zero (suc j) a b h = ground arith
get_elem?-set (x ∷ xs) (suc i) zero a b h = ground arith
get_elem?-set (x ∷ xs) (suc i) (suc j) a b h = ground (arith, get_elem?-set xs i j a b h)

pub get_elem?-lt :
    {A : Type 0} (xs : List A) (i : ℕ) (a : A) → get_elem? xs i ≡ some a → i < length xs
get_elem?-lt [] i a h = absurd (cc h)
get_elem?-lt (x ∷ xs) zero a h = omega arith
get_elem?-lt (x ∷ xs) (suc i) a h = omega (arith, get_elem?-lt xs i a h)

pub get_elem?-ge : {A : Type 0} (xs : List A) (i : ℕ) → get_elem? xs i ≡ none → length xs ≤ i
get_elem?-ge [] i h = omega arith
get_elem?-ge (x ∷ xs) zero h = absurd (cc h)
get_elem?-ge (x ∷ xs) (suc i) h = omega (arith, get_elem?-ge xs i h)

pub length-set : {A : Type 0} (xs : List A) (i : ℕ) (a : A) → length (set xs i a) ≡ length xs
length-set [] i a = refl
length-set (x ∷ xs) zero a = refl
length-set (x ∷ xs) (suc i) a = omega (arith, length-set xs i a)
