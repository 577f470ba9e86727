-- ===== src/Ept/Pages.antt =====
-- What one operation does to the entry of every page.
use alcatraz.Prelude.{
  ℕ, ◌+◌, ◌*◌, ◌/◌, ◌%◌, ◌^◌, ◌<◌, ◌≡◌, ap, ◌∙◌, arith, ◌==◌, ==_iff, ==_self, ◌&&◌, if◌then◌else◌,
  bit_and, bit_or, Bool-cases, inl, inr,
}
use alcatraz.Prelude.Bits.{page_mask, offset_mask, page_flags}
use alcatraz.Vmx.Registers.{not64}
use alcatraz.Ept.{
  Ept, put_pte, mask_pageaddr, set_ept_page_addr, set_ept_page_flags, set_ept_hide_page,
  set_ept_read_only_page, set_ept_lock_page, set_ept_all_access_page,
}

-- The entry of the page with number `n`.
abbrev pub entry : Ept → ℕ → ℕ
entry e n = e.pte (n / 512) (n % 512)

-- Every entry is a 64-bit value.
abbrev pub Words : Ept → Type 0
Words e = (j i : ℕ) → e.pte j i < 2 ^ 64

same_page : (n m : ℕ) → (n / 512 == m / 512 && n % 512 == m % 512) ≡ (n == m)
same_page n m = ground arith

masked_or :
    (a f : ℕ) → a < 2 ^ 64 → f < 4096 → bit_or (bit_and a mask_pageaddr) f ≡ a / 4096 * 4096 + f
masked_or a f h g = rw (page_mask a h) (page_flags (a / 4096) f g)

entry-flags :
    (e : Ept) (p f n : ℕ)
    → Words e
    → f < 4096
    → entry (set_ept_page_flags e p f) n
      ≡ (if n == p / 4096 then entry e n / 4096 * 4096 + f else entry e n)
unfolding set_ept_page_flags
entry-flags e p f n w g = elim (Bool-cases (n == p / 4096)) [
  | inl q ↦ rw ((==_iff n (p / 4096)).0 q) (
      ground (
        arith,
        ==_self (p / 4096 / 512),
        ==_self (p / 4096 % 512),
        ==_self (p / 4096),
        masked_or (entry e (p / 4096)) f (w (p / 4096 / 512) (p / 4096 % 512)) g,
      ))
  | inr q ↦ ground (arith, same_page n (p / 4096), q)
]

entry-addr :
    (e : Ept) (p n : ℕ)
    → p < 2 ^ 64
    → entry (set_ept_page_addr e p p) n
      ≡ (if n == p / 4096 then n * 4096 + entry e n % 4096 else entry e n)
unfolding set_ept_page_addr
entry-addr e p n h = elim (Bool-cases (n == p / 4096)) [
  | inl q ↦ rw ((==_iff n (p / 4096)).0 q) (
      ground (
        arith,
        ==_self (p / 4096 / 512),
        ==_self (p / 4096 % 512),
        ==_self (p / 4096),
        offset_mask (entry e (p / 4096)),
        masked_or p (entry e (p / 4096) % 4096) h (omega arith),
      ))
  | inr q ↦ ground (arith, same_page n (p / 4096), q)
]

flags-addr :
    (e : Ept) (p f n : ℕ)
    → Words e
    → p < 2 ^ 64
    → f < 4096
    → entry (set_ept_page_addr (set_ept_page_flags e p f) p p) n
      ≡ (if n == p / 4096 then n * 4096 + f else entry e n)
flags-addr e p f n w h g =
    entry-addr (set_ept_page_flags e p f) p n h ∙ ground (arith, entry-flags e p f n w g)

-- Locking a page lets the guest read and execute it, making it read-only lets the guest read it, and
-- opening it lets the guest do everything, each with write-back memory and mapped to itself; no other
-- page changes.
pub set_page-entry :
    (e : Ept) (p n : ℕ)
    → Words e
    → p < 2 ^ 64
    → (entry (set_ept_lock_page e p) n ≡ (if n == p / 4096 then n * 4096 + 0x35 else entry e n))
      × (entry (set_ept_read_only_page e p) n
          ≡ (if n == p / 4096 then n * 4096 + 0x31 else entry e n))
      × (entry (set_ept_all_access_page e p) n
          ≡ (if n == p / 4096 then n * 4096 + 0x37 else entry e n))
unfolding set_ept_lock_page set_ept_read_only_page set_ept_all_access_page
set_page-entry e p n w h = (
  flags-addr e p 0x35 n w h (omega arith),
  flags-addr e p 0x31 n w h (omega arith),
  flags-addr e p 0x37 n w h (omega arith),
)

-- Hiding a page takes every permission away and keeps where it is mapped; no other page changes.
pub hide_page-entry :
    (e : Ept) (p n : ℕ)
    → Words e
    → entry (set_ept_hide_page e p) n
      ≡ (if n == p / 4096 then entry e n / 4096 * 4096 + 0x30 else entry e n)
unfolding set_ept_hide_page
hide_page-entry e p n w = entry-flags e p 0x30 n w (omega arith)

-- The entries stay 64-bit values.
pub put_pte-Words : (e : Ept) (j i v : ℕ) → Words e → v < 2 ^ 64 → Words (put_pte e j i v)
put_pte-Words e j i v w h k l = elim (Bool-cases (k == j && l == i)) [
  | inl q ↦ ground (arith, q, h)
  | inr q ↦ ground (arith, q, w k l)
]

flags-Words : (e : Ept) (p f : ℕ) → Words e → f < 4096 → Words (set_ept_page_flags e p f)
unfolding set_ept_page_flags
flags-Words e p f w g =
    let t = p / 4096 / 512 in
    let i = p / 4096 % 512 in
    put_pte-Words e t i _ w (omega (arith, masked_or (e.pte t i) f (w t i) g, w t i))

addr-Words : (e : Ept) (p : ℕ) → Words e → p < 2 ^ 64 → Words (set_ept_page_addr e p p)
unfolding set_ept_page_addr
addr-Words e p w h =
    let t = p / 4096 / 512 in
    let i = p / 4096 % 512 in
    let x = e.pte t i in
    let written : bit_or (bit_and p mask_pageaddr) (bit_and x (not64 mask_pageaddr))
        ≡ p / 4096 * 4096 + x % 4096 =
      ap (bit_or (bit_and p mask_pageaddr)) (offset_mask x)
      ∙ masked_or p (x % 4096) h (omega arith) in
    put_pte-Words e t i _ w (omega (arith, written))

pub hide-Words : (e : Ept) (p : ℕ) → Words e → Words (set_ept_hide_page e p)
unfolding set_ept_hide_page
hide-Words e p w = flags-Words e p 0x30 w (omega arith)

pub lock-Words : (e : Ept) (p : ℕ) → Words e → p < 2 ^ 64 → Words (set_ept_lock_page e p)
unfolding set_ept_lock_page
lock-Words e p w h =
    addr-Words (set_ept_page_flags e p 0x35) p (flags-Words e p 0x35 w (omega arith)) h

pub all_access-Words :
    (e : Ept) (p : ℕ) → Words e → p < 2 ^ 64 → Words (set_ept_all_access_page e p)
unfolding set_ept_all_access_page
all_access-Words e p w h =
    addr-Words (set_ept_page_flags e p 0x37) p (flags-Words e p 0x37 w (omega arith)) h
