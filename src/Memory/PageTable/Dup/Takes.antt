-- ===== src/Memory/PageTable/Dup/Takes.antt =====
-- How many pages `hb_dup_page_table_for_host` takes.
use alcatraz.Prelude.{
  ◌∷◌, List, ◌==◌, Bool-cases, inl, inr, ==_iff, subst, ◌<◌, ℕ, zero, suc, ◌+◌, ◌*◌, ◌≤◌, arith,
  if_elim, bit_and, bit_or,
}
use mathlib.Core.List.{Mem, mem-cons_self, mem-cons_of_mem}
use alcatraz.Memory.PageTable.{mask_pageflag, get_addr}
use alcatraz.Memory.PageTable.Dup.{Copy, is_kept, enter_new, dup_entries, dup_table}

-- How many pages the tables below one of a level can take.
abbrev pub most_pages : ℕ → ℕ
most_pages zero = 0
most_pages (suc k) = 512 * (1 + most_pages k)

-- What copies a table takes no page back, and takes at most `m`.
abbrev pub Takes : ℕ → (ℕ → ℕ → Copy → Copy) → Type 0
Takes m below =
    (org v : ℕ) (s : Copy)
    → (s.calls ≤ (below org v s).calls) × ((below org v s).calls ≤ s.calls + m)

pub dup_entries-Takes :
    (phy : ℕ → ℕ) (m : ℕ) (below : ℕ → ℕ → Copy → Copy)
    → Takes m below
    → (n : ℕ) → Takes (n * (1 + m)) (dup_entries phy below n)
unfolding dup_entries
dup_entries-Takes phy m below takes zero org v s = (omega arith, omega arith)
dup_entries-Takes phy m below takes (suc n) org v s =
    let s1 = dup_entries phy below n org v s in
    let x = s1.mem org n in
    let before = dup_entries-Takes phy m below takes n org v s in
    let next =
      takes (get_addr x) (get_addr (bit_or (phy s1.calls) (bit_and x mask_pageflag)))
        (enter_new phy v n x s1) in
    let P : Copy → Type 0 = λ t. (s.calls ≤ t.calls) × (t.calls ≤ s.calls + suc n * (1 + m)) in
    if_elim P (is_kept x) _ _ (omega (arith, before.0), grind (arith, before.1))
      (omega (arith, before.0, next.0), grind (arith, before.1, next.1))

pub dup_table-Takes : (phy : ℕ → ℕ) (k : ℕ) → Takes (most_pages k) (dup_table phy k)
unfolding dup_table
dup_table-Takes phy zero org v s = (omega arith, omega arith)
dup_table-Takes phy (suc k) org v s =
    dup_entries-Takes phy (most_pages k) (dup_table phy k) (dup_table-Takes phy k) 512 org v s

-- Every page from `lo` on that has been taken has been hidden.
abbrev pub IsHidden : ℕ → Copy → Type 0
IsHidden lo s = (m : ℕ) → lo ≤ m → m < s.calls → Mem m s.hidden

-- What copies a table hides each page that it takes.
abbrev pub Hides : (ℕ → ℕ → Copy → Copy) → Type 0
Hides below = (org v lo : ℕ) (s : Copy) → IsHidden lo s → IsHidden lo (below org v s)

pub hidden_next :
    (lo calls m : ℕ) (hidden : List ℕ)
    → ((m : ℕ) → lo ≤ m → m < calls → Mem m hidden)
    → lo ≤ m
    → m < calls + 1
    → Mem m (calls ∷ hidden)
hidden_next lo calls m hidden h le lt = elim (Bool-cases (m == calls)) [
  | inl same ↦ subst (λ (c : ℕ). Mem m (c ∷ hidden)) ((==_iff m calls).0 same) mem-cons_self
  | inr other ↦ mem-cons_of_mem calls (h m le (ground arith))
]

dup_entries-Hides :
    (phy : ℕ → ℕ) (below : ℕ → ℕ → Copy → Copy)
    → Hides below
    → (n : ℕ) → Hides (dup_entries phy below n)
unfolding dup_entries
dup_entries-Hides phy below hides zero org v lo s h = h
dup_entries-Hides phy below hides (suc n) org v lo s h =
    let s1 = dup_entries phy below n org v s in
    let before = dup_entries-Hides phy below hides n org v lo s h in
    if_elim (IsHidden lo) (is_kept (s1.mem org n)) _ _ before
      (hides _ _ lo _ (λ m le lt. hidden_next lo s1.calls m s1.hidden before le lt))

pub dup_table-Hides : (phy : ℕ → ℕ) (k : ℕ) → Hides (dup_table phy k)
unfolding dup_table
dup_table-Hides phy zero org v lo s h = h
dup_table-Hides phy (suc k) org v lo s h =
    dup_entries-Hides phy (dup_table phy k) (dup_table-Hides phy k) 512 org v lo s h
