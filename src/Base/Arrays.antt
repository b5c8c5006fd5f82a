-- ===== src/Base/Arrays.antt =====
-- Arrays as functions of the index, with the write at one index and the bytes of a memory block.
use mathlib.Core.Path.{refl}
use mathlib.Core.Bool.{true}
use mathlib.Core.Logic.{inl, inr}
use Prim.Native.Nat.{◌≤◌, ℕ, ◌+◌, ◌-◌, ◌<◌}
use mathlib.Core.Path.{◌≡◌}
use mathlib.Core.Logic.{◌≢◌}
use mathlib.Core.Bool.{◌&&◌}
use native.Mathlib.Omega.{arith}
use tazer.Base.Tests.{Bool-cases, ◌==◌, leb, ltb, if◌then◌else◌}

-- `a[i] = v`.
abbrev pub update {ℓ} : {A : Type ℓ} → (ℕ → A) → ℕ → A → ℕ → A
update a i v j = if i == j then v else a j

-- `memcpy(&dst[at], &src[from], n)`.
abbrev pub memcpy {ℓ} : {A : Type ℓ} → (ℕ → A) → ℕ → (ℕ → A) → ℕ → ℕ → ℕ → A
memcpy dst at src from n i = if leb at i && ltb i (at + n) then src (from + (i - at)) else dst i

pub update_self {ℓ} : {A : Type ℓ} (a : ℕ → A) (i : ℕ) (v : A) → update a i v i ≡ v
update_self a i v = ground arith

pub update-ne {ℓ} : {A : Type ℓ} (a : ℕ → A) (i : ℕ) (v : A) (j : ℕ) → i ≢ j → update a i v j ≡ a j
update-ne a i v j h = ground arith

pub memcpy-in {ℓ} :
    {A : Type ℓ} (dst : ℕ → A) (at : ℕ) (src : ℕ → A) (from n i : ℕ)
    → i < n
    → memcpy dst at src from n (at + i) ≡ src (from + i)
memcpy-in dst at src from n i h = ground arith

memcpy_range : (at n i : ℕ) → (leb at i && ltb i (at + n)) ≡ true → (at ≤ i) × (i < at + n)
memcpy_range at n i e = ground arith

pub memcpy-out {ℓ} :
    {A : Type ℓ} (dst : ℕ → A) (at : ℕ) (src : ℕ → A) (from n i : ℕ)
    → ¬ ((at ≤ i) × (i < at + n))
    → memcpy dst at src from n i ≡ dst i
memcpy-out dst at src from n i h = elim (Bool-cases (leb at i && ltb i (at + n))) [
  | inl e ↦ absurd (h (memcpy_range at n i e))
  | inr e ↦ rw e refl
]
