-- ===== src/Vmx/Descriptor/Memory.antt =====
-- Loads and stores of the guest's memory.
use alcatraz.Prelude.{
  ℕ, zero, suc, ◌+◌, ◌*◌, ◌/◌, ◌%◌, ◌≤◌, ◌<◌, ◌≡◌, ◌⊎◌, inl, refl, ◌∙◌, arith, ◌==◌, ==_self,
  if◌then◌else◌,
}
use alcatraz.Vmx.Nested.{store}
use alcatraz.Vmx.Descriptor.{load}

-- A byte outside a store.
pub store-outside :
    (n addr v : ℕ) (mem : ℕ → ℕ) (a : ℕ)
    → (a < addr) ⊎ (addr + n ≤ a)
    → store n addr v mem a ≡ mem a
unfolding store
store-outside zero addr v mem a out = refl
store-outside (suc n) addr v mem a out =
    ground (
      arith,
      store-outside n (addr + 1) (v / 256) (λ b. if addr == b then v % 256 else mem b) a,
      out,
    )

-- A load sees only its own bytes.
pub load-same :
    (n addr : ℕ) (mem mem' : ℕ → ℕ)
    → ((a : ℕ) → addr ≤ a → a < addr + n → mem a ≡ mem' a)
    → load n addr mem ≡ load n addr mem'
unfolding load
load-same zero addr mem mem' same = refl
load-same (suc n) addr mem mem' same = omega (
  arith,
  same addr (omega arith) (omega arith),
  load-same n (addr + 1) mem mem' (λ a lo hi. same a (omega (arith, lo)) (omega (arith, hi))),
)

abbrev pub bytes : ℕ → ℕ
bytes zero = 1
bytes (suc n) = 256 * bytes n

pub load-store : (n addr v : ℕ) (mem : ℕ → ℕ) → v < bytes n → load n addr (store n addr v mem) ≡ v
unfolding load store
load-store zero addr v mem h = omega arith
load-store (suc n) addr v mem h =
    let mem' : ℕ → ℕ = λ a. if addr == a then v % 256 else mem a in
    let low : store n (addr + 1) (v / 256) mem' addr ≡ v % 256 =
      store-outside n (addr + 1) (v / 256) mem' addr (inl (omega arith))
      ∙ (rw (==_self addr) refl) in
    omega (arith, low, load-store n (addr + 1) (v / 256) mem' (omega (arith, h)))
