-- ===== src/Unittest/AllowDb/Insert.antt =====
-- `insert_raw` of unittest/src/allow_db.rs compares with one buffer only; this decides overlap with
-- all of them.
use native.Mathlib.Nat.{le_refl}
use native.Mathlib.Decide.{dec_le}
use libtock_rs.Common.{
  subst, ◌==◌, ==→eq, refl, if◌then◌else◌, true, false, ℕ, ◌+◌, ◌≤◌, ◌<◌, ◌≡◌, ◌↔◌, ◌⊎◌, inl, inr,
  Option, none, some, [], ◌∷◌, arith, Bool-cases, Result-cases, ltb, ltb→lt, Result, ok, err,
}
use libtock_rs.Unittest.AllowDb.Defs.{
  Buffers, insert, last_below, insert_raw, OverlapError, AllowBuffer, insert_ro_buffer,
  insert_rw_buffer, overlap_error,
}
use libtock_rs.Unittest.AllowDb.Overlap.{Covers, IsDb, Last, last_below_lem, ge}

-- The new buffer has an address in common with an active one.
abbrev pub Overlaps : ℕ → ℕ → Buffers → Type 0
Overlaps a n m = (x : ℕ) × (a ≤ x) × (x < a + n) × Covers m x

-- What `insert_raw` does, by whether the buffers overlap.
abbrev pub Decides : ℕ → ℕ → Buffers → Result Buffers OverlapError → Type 0
Decides a n m r =
    (Overlaps a n m × (r ≡ err overlap_error)) ⊎ ((¬ Overlaps a n m) × (r ≡ ok (insert a n m)))

Decides-some :
    (a n b l : ℕ) (m : Buffers)
    → 0 < n
    → Last (a + n) m (some (b, l))
    → Decides a n m (if ltb a (b + l) then err overlap_error else ok (insert a n m))
Decides-some a n b l m pos last = elim (Bool-cases (ltb a (b + l))) [
  | inl e ↦ rw e (inl (meet (ltb→lt a (b + l) e), refl))
  | inr e ↦ rw e (inr (λ o. apart e o, refl))
]
  where
    meet : a < b + l → Overlaps a n m
    meet h = elim (dec_le a b) [
      | yes le ↦ (b, le, last.0, last.1 b (le_refl b) (omega arith))
      | no gt ↦ (a, le_refl a, omega arith, last.1 a (omega arith) h)
    ]

    apart : ltb a (b + l) ≡ false → ¬ Overlaps a n m
    apart e (x, p, q, c) = omega (arith, ge a (b + l) e, last.3 x (omega (arith, ge a (b + l) e)) c)

pub insert_raw-Decides :
    (lo a n : ℕ) (m : Buffers) → 0 < n → IsDb lo m → Decides a n m (insert_raw a n m)
unfolding insert_raw
insert_raw-Decides lo a n m pos d = go (last_below (a + n) m) (last_below_lem (a + n) lo m d)
  where
    go :
        (o : Option (ℕ × ℕ))
        → Last (a + n) m o
        → Decides a n m (elim o [
          | none ↦ ok (insert a n m)
          | some (b, l) ↦ if ltb a (b + l) then err overlap_error else ok (insert a n m)
        ])
    go none last = inr (λ o. omega (arith, last o.0 o.3), refl)
    go (some (b, l)) last = Decides-some a n b l m pos last

-- `insert_raw` refuses a buffer exactly when it has an address in common with some active buffer;
-- the database holds the invariant and the new buffer is not empty.
pub insert_raw-Overlaps :
    (lo a n : ℕ) (m : Buffers)
    → 0 < n
    → IsDb lo m
    → (insert_raw a n m ≡ err overlap_error) ↔ Overlaps a n m
insert_raw-Overlaps lo a n m pos d = elim (insert_raw-Decides lo a n m pos d) [
  | inl (o, e) ↦ (λ _. o, λ _. e)
  | inr (apart, e) ↦ (λ e'. absurd (cc), λ o. absurd (apart o))
]

pub insert-IsDb :
    (lo a n : ℕ) (m : Buffers)
    → 0 < n
    → lo ≤ a
    → IsDb lo m
    → ¬ Overlaps a n m
    → IsDb lo (insert a n m)
unfolding insert
insert-IsDb lo a n [] pos h d apart = (h, pos, tt)
insert-IsDb lo a n ((b, l) ∷ m) pos h d apart = elim (dec_le b a) [
  | yes le ↦
      let past : b + l ≤ a = elim (dec_le (b + l) a) [
        | yes p ↦ p
        | no q ↦ absurd (apart (a, le_refl a, omega arith, inl (le, omega arith)))
      ] in
      ground (arith, insert-IsDb (b + l) a n m pos past d.2 (λ o. apart (o.0, o.1, o.2, inr o.3)))
  | no gt ↦
      let past : a + n ≤ b = elim (dec_le (a + n) b) [
        | yes p ↦ p
        | no q ↦ absurd (apart (b, omega arith, omega arith, inl (le_refl b, omega arith)))
      ] in
      ground arith
]

push {ℓ} : {P Q C D : Type ℓ} → C ↔ (Q ⊎ D) → (P ⊎ C) ↔ (Q ⊎ (P ⊎ D))
push h = (
  elim [ inl p ↦ inr (inl p) | inr c ↦ elim (h.0 c) [ inl q ↦ inl q | inr d ↦ inr (inr d) ] ],
  elim [ inl q ↦ inr (h.1 (inl q)) | inr r ↦ elim r [ inl p ↦ inl p | inr d ↦ inr (h.1 (inr d)) ] ],
)

Covers-insert :
    (lo a n : ℕ) (m : Buffers) (x : ℕ)
    → IsDb lo m
    → ¬ Overlaps a n m
    → 0 < n
    → Covers (insert a n m) x ↔ (((a ≤ x) × (x < a + n)) ⊎ Covers m x)
unfolding insert
Covers-insert lo a n [] x d apart pos = (λ c. c, λ c. c)
Covers-insert lo a n ((b, l) ∷ m) x d apart pos = elim (Bool-cases (ltb a b)) [
  | inl before ↦ rw before (λ c. c, λ c. c)
  | inr not_before ↦ elim (Bool-cases (a == b)) [
    | inl same ↦ absurd (apart (a, le_refl a, omega arith, inl (first same)))
    | inr other ↦
        rw (not_before, other)
          (push (Covers-insert (b + l) a n m x d.2 (λ o. apart (o.0, o.1, o.2, inr o.3)) pos))
  ]
]
  where
    first : (a == b) ≡ true → (b ≤ a) × (a < b + l)
    first e = omega (arith, ==→eq a b e)

-- An accepted buffer keeps the invariant, and the addresses covered grow by exactly its own.
pub insert_raw-IsDb :
    (lo a n : ℕ) (m m' : Buffers)
    → 0 < n
    → lo ≤ a
    → IsDb lo m
    → insert_raw a n m ≡ ok m'
    → IsDb lo m' × ((x : ℕ) → Covers m' x ↔ (((a ≤ x) × (x < a + n)) ⊎ Covers m x))
insert_raw-IsDb lo a n m m' pos h d e = elim (insert_raw-Decides lo a n m pos d) [
  | inl (o, e') ↦ absurd (cc)
  | inr (apart, e') ↦
      let same : insert a n m ≡ m' = cc in
      rw (← same) (insert-IsDb lo a n m pos h d apart, λ x. Covers-insert lo a n m x d apart pos)
]

-- A buffer of any length that is accepted keeps the invariant.
module _ (a n : ℕ) (m m' : Buffers) (b : AllowBuffer) (d : IsDb 0 m) where
  pub insert_ro_buffer-IsDb : insert_ro_buffer a n m ≡ ok (b, m') → IsDb 0 m'
  unfolding insert_ro_buffer
  insert_ro_buffer-IsDb h = elim (Bool-cases (n == 0)) [
    | inl short ↦ let same : m ≡ m' = ground arith in subst (IsDb 0) same d
    | inr long ↦ elim (Result-cases (insert_raw a n m)) [
      | inl (m'', e) ↦
          let same : m'' ≡ m' = ground arith in
          subst (IsDb 0) same (insert_raw-IsDb 0 a n m m'' (ground arith) (omega arith) d e).0
      | inr (o, e) ↦ absurd (ground arith)
    ]
  ]

  pub insert_rw_buffer-IsDb : insert_rw_buffer a n m ≡ ok (b, m') → IsDb 0 m'
  unfolding insert_rw_buffer
  insert_rw_buffer-IsDb h = elim (Bool-cases (n == 0)) [
    | inl short ↦ let same : m ≡ m' = ground arith in subst (IsDb 0) same d
    | inr long ↦ elim (Result-cases (insert_raw a n m)) [
      | inl (m'', e) ↦
          let same : m'' ≡ m' = ground arith in
          subst (IsDb 0) same (insert_raw-IsDb 0 a n m m'' (ground arith) (omega arith) d e).0
      | inr (o, e) ↦ absurd (ground arith)
    ]
  ]
