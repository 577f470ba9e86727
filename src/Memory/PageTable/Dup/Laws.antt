-- ===== src/Memory/PageTable/Dup/Laws.antt =====
-- The hypervisor's copy of the tables leads where the kernel's tables lead.
use alcatraz.Prelude.{
  ℕ, suc, ◌≤◌, ◌<◌, ◌≡◌, ◌≢◌, refl, ap, ◌∙◌, true, false, arith, Bool-cases, inl, inr,
}
use alcatraz.Memory.PageTable.{Tables, PageEntry, get_addr, is_present, is_size_flag_set, index_of}
use alcatraz.Memory.PageTable.Dup.{Copy, is_kept}
use alcatraz.Memory.PageTable.Dup.Frame.{
  In, In-agree, In-mono, Agree, ends, ends-agree, Follows, ends-follow, index_small,
}

-- A table on one of the pages from `lo` up to `hi`.
abbrev pub IsPage : (ℕ → ℕ) → ℕ → ℕ → ℕ → Type 0
IsPage phy lo hi t = (m : ℕ) × (lo ≤ m) × (m < hi) × (t ≡ phy m)

-- A table on none of them.
abbrev pub IsOther : (ℕ → ℕ) → ℕ → ℕ → ℕ → Type 0
IsOther phy lo hi t = (m : ℕ) → lo ≤ m → m < hi → t ≢ phy m

module _ (phy : ℕ → ℕ) where
  -- The copy of the table `org` on the page `v`, from `s` on: `s'` is what it leaves.
  pub record IsCopy (k org v : ℕ) (s s' : Copy) : Type 0 where
    pub grows : s.calls ≤ s'.calls
    pub frame : Agree (IsOther phy v s'.calls) s.mem s'.mem
    pub fresh : In (IsPage phy v s'.calls) s'.mem k (phy v)
    pub same :
        (addr : ℕ) (out out' : PageEntry)
        → out 3 ≡ out' 3
        → ends s'.mem addr k (phy v) out' ≡ ends s.mem addr k org out

  -- What the loop has done with one entry.
  pub record IsDone (k org v : ℕ) (mem : Tables) (s' : Copy) (i : ℕ) : Type 0 where
    pub leads : (addr : ℕ) → Follows mem s'.mem addr k (mem org i) (s'.mem (phy v) i)
    pub inside :
        is_kept (mem org i) ≡ false
        → In (IsPage phy (suc v) s'.calls) s'.mem k (get_addr (s'.mem (phy v) i))
    pub goes : is_kept (mem org i) ≡ true → is_kept (s'.mem (phy v) i) ≡ true

  pub record IsLoop (k org v : ℕ) (s : Copy) (n : ℕ) (s' : Copy) : Type 0 where
    pub grows : s.calls ≤ s'.calls
    pub frame : Agree (IsOther phy v s'.calls) s.mem s'.mem
    pub done : (i : ℕ) → i < n → IsDone k org v s.mem s' i

  -- A finished loop is a copy of the table.
  pub finish :
      (k org v : ℕ) (s s' : Copy)
      → s.calls ≡ suc v
      → IsLoop k org v s 512 s'
      → IsCopy (suc k) org v s s'
  finish k org v s s' start l = record {
    grows = l.grows;
    frame = l.frame;
    fresh = (
      (v, omega arith, omega (arith, l.grows), refl),
      λ i small kept'.
          let d = l.done i small in
          elim (Bool-cases (is_kept (s.mem org i))) [
            | inl kept ↦ absurd (cc (d.goes kept))
            | inr goes ↦
                In-mono (IsPage phy (suc v) s'.calls) (IsPage phy v s'.calls) s'.mem k _
                  (λ t p. (p.0, omega (arith, p.1), p.2, p.3)) (d.inside goes)
          ],
    );
    same = λ addr out out' e.
        ends-follow s.mem s'.mem addr k org (phy v) out out' e
          ((l.done (index_of addr (suc k)) (index_small addr (suc k))).leads addr);
  }

  -- Going on leaves an entry done, if its tables and it stay.
  pub still :
      (k org v : ℕ) (mem : Tables) (s1 s2 : Copy) (i : ℕ)
      → s1.calls ≤ s2.calls
      → Agree (IsPage phy (suc v) s1.calls) s1.mem s2.mem
      → s2.mem (phy v) i ≡ s1.mem (phy v) i
      → IsDone k org v mem s1 i
      → IsDone k org v mem s2 i
  still k org v mem s1 s2 i grows agree entry d = record {
    leads = λ addr.
        let f = d.leads addr in
        record {
          present = ap is_present entry ∙ f.present;
          size = ap is_size_flag_set entry ∙ f.size;
          below = λ goes out out' same. rw entry (
              ends-agree (IsPage phy (suc v) s1.calls) s1.mem s2.mem addr k _ out' out' agree
                (d.inside goes) refl
              ∙ f.below goes out out' same);
          kept = λ h. entry ∙ f.kept h;
        };
    inside = λ goes. rw entry (
        In-mono (IsPage phy (suc v) s1.calls) (IsPage phy (suc v) s2.calls) s2.mem k _
          (λ t p. (p.0, p.1, omega (arith, p.2, grows), p.3))
          (In-agree (IsPage phy (suc v) s1.calls) s1.mem s2.mem k _ agree (d.inside goes)));
    goes = λ h. ap is_kept entry ∙ d.goes h;
  }
