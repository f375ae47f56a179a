-- ===== src/Unittest/Syscalls/Rules.antt =====
-- Rules by which a run over the world of unittest/src/kernel_data.rs keeps the invariant of the
-- kernel's data, from its parts.
use libtock_rs.Common.{
  subst, ℕ, Bool, true, false, Option, none, some, Outcome, returns, panics, exits, ltb, ◌^◌,
  if◌then◌else◌, Option-cases, Bool-cases, inl, inr,
}
use libtock_rs.Unittest.AllowDb.{AllowBuffer}
use libtock_rs.Unittest.KernelData.{KernelData, Args}
use libtock_rs.Unittest.World.{World, M, Env, ◌>>=◌, put_back, with_kernel_data, expect_u32}
use libtock_rs.Unittest.Kernel.Invariant.{IsWellFormed, Keeps}

abbrev pub KernelSafe : Option KernelData → Type 0
KernelSafe none = Unit
KernelSafe (some k) = IsWellFormed k

-- Where there is a kernel, its data is well formed.
abbrev pub IsSafe : {H : Type 0} → World H → Type 0
IsSafe w = KernelSafe w.kernel_data

abbrev pub EndsSafe : {H A : Type 0} → Outcome (A × World H) → Type 0
EndsSafe (returns (a, w)) = IsSafe w
EndsSafe panics = Unit
EndsSafe (exits c) = Unit

-- Started in a safe world, the run ends in one, if it returns.
abbrev pub KeepsSafe : {H A : Type 0} → M H A → Type 0
KeepsSafe {H} m = (w : World H) → IsSafe w → EndsSafe (m w)

module _ {H A B : Type 0} where
  pub bind-KeepsSafe :
      (m : M H A) (f : A → M H B) → KeepsSafe m → ((a : A) → KeepsSafe (f a)) → KeepsSafe (m >>= f)
  bind-KeepsSafe m f hm hf w s = go (m w) (hm w s)
    where
      go :
          (r : Outcome (A × World H))
          → EndsSafe r
          → EndsSafe {H = H} {A = B}
              (elim r [ panics ↦ panics | exits c ↦ exits c | returns (a, w') ↦ f a w' ])
      go panics h = tt
      go (exits c) h = tt
      go (returns (a, w')) h = hf a w' h

pub put_back-EndsSafe :
    {H A : Type 0} (w : World H) (r : Outcome (A × KernelData)) → Keeps r → EndsSafe (put_back w r)
put_back-EndsSafe w panics h = tt
put_back-EndsSafe w (exits c) h = tt
put_back-EndsSafe w (returns (a, k)) h = h

pub with_kernel_data-KeepsSafe :
    {H A : Type 0} (f : KernelData → Outcome (A × KernelData))
    → ((k : KernelData) → IsWellFormed k → Keeps (f k))
    → KeepsSafe {H = H} (with_kernel_data f)
with_kernel_data-KeepsSafe f h w s = elim (Option-cases w.kernel_data) [
  | inl e ↦ rw (e, with_kernel_data) tt
  | inr (k, e) ↦ rw (e, with_kernel_data) (put_back-EndsSafe w (f k) (h k (subst KernelSafe e s)))
]

expect_u32-KeepsSafe : {H : Type 0} (r : ℕ) → KeepsSafe {H = H} (expect_u32 r)
expect_u32-KeepsSafe r w s = elim (Bool-cases (ltb r (2 ^ 32))) [ inl e ↦ rw e s | inr e ↦ rw e tt ]

-- What the code of the test must keep: the methods of its drivers and its upcalls.
pub record KeepsEnv {H : Type 0} (env : Env H) : Type 0 where
  pub registers : (driver n : ℕ) → KeepsSafe (env.register driver n)
  pub commands : (driver c a b : ℕ) → KeepsSafe (env.command driver c a b)
  pub allows_ro : (driver n : ℕ) (b : AllowBuffer) → KeepsSafe (env.allow_readonly driver n b)
  pub allows_rw : (driver n : ℕ) (b : AllowBuffer) → KeepsSafe (env.allow_readwrite driver n b)
  pub upcalls : (f : ℕ) (args : Args) (p : ℕ) → KeepsSafe (env.upcall_fn f args p)

module _ {H A B : Type 0} where
  pub closure-KeepsSafe :
      (f : KernelData → Outcome (A × KernelData)) (g : A → M H B)
      → ((k : KernelData) → IsWellFormed k → Keeps (f k))
      → ((a : A) → KeepsSafe (g a))
      → KeepsSafe (with_kernel_data f >>= g)
  closure-KeepsSafe f g hf hg =
      bind-KeepsSafe (with_kernel_data f) g (with_kernel_data-KeepsSafe f hf) hg

module _ {H A : Type 0} where
  pub u32-KeepsSafe :
      (r : ℕ) (g : ℕ → M H A) → ((n : ℕ) → KeepsSafe (g n)) → KeepsSafe (expect_u32 r >>= g)
  u32-KeepsSafe r g h = bind-KeepsSafe (expect_u32 r) g (expect_u32-KeepsSafe r) h

  pub if-KeepsSafe :
      (b : Bool) (m n : M H A) → KeepsSafe m → KeepsSafe n → KeepsSafe (if b then m else n)
  if-KeepsSafe true m n hm hn = hm
  if-KeepsSafe false m n hm hn = hn
