-- ===== src/Memory/PageTable/Dup/Whole.antt =====
-- The hypervisor's copy of the tables translates every address as the kernel's tables do.
use alcatraz.Prelude.{
  ◌∷◌, ℕ, zero, suc, ◌+◌, ◌*◌, ◌≤◌, false, ◌<◌, ◌≡◌, refl, ap, sym, subst, ◌∙◌, arith, if_split,
  if_true, if_false, ==_self, bit_and, bit_or,
}
use alcatraz.Memory.PageTable.{clear_table, mask_pageflag, get_addr, get_phy_from_log, walk}
use alcatraz.Memory.PageTable.Masks.{merged-addr}
use alcatraz.Memory.PageTable.Dup.{
  Copy, is_kept, copy_table, enter_new, dup_entries, dup_table, dup_page_table_for_host,
}
use alcatraz.Memory.PageTable.Dup.Frame.{In, In-agree, Agree, ends-agree}
use alcatraz.Memory.PageTable.Dup.Laws.{IsPage, IsCopy, IsLoop, finish, IsOther}
use alcatraz.Memory.PageTable.Dup.Takes.{
  Takes, most_pages, dup_table-Takes, IsHidden, dup_table-Hides, hidden_next,
}
use alcatraz.Memory.PageTable.Dup.Loop.{ArePages, ==_other, cleared, keep, enter, entered}

module _ (phy : ℕ → ℕ) (top : ℕ) (pages : ArePages phy top) where
  -- A table of the last level is copied whole.
  copy_table-IsCopy :
      (org v : ℕ) (s : Copy)
      → s.calls ≡ suc v
      → IsCopy phy 0 org v s (record s { mem = copy_table org (phy v) s.mem })
  unfolding walk
  copy_table-IsCopy org v s start = record {
    grows = omega arith;
    frame = λ t o i. if_false _ _ (==_other t (phy v) (o v (omega arith) (omega (arith, start))));
    fresh = (v, omega arith, omega (arith, start), refl);
    same = λ addr out out' q. if_true _ _ (==_self (phy v));
  }

  -- What `below` promises for the tables of a level.
  abbrev Copies : ℕ → (ℕ → ℕ → Copy → Copy) → Type 0
  Copies k below =
      (org v : ℕ) (s : Copy)
      → s.calls ≡ suc v
      → (below org (phy v) s).calls ≤ top
      → In (IsOther phy 0 top) s.mem k org
      → IsCopy phy k org v s (below org (phy v) s)

  -- One turn of the loop that takes a page.
  take_page :
      (k : ℕ) (below : ℕ → ℕ → Copy → Copy) (m : ℕ)
      → Takes m below
      → Copies k below
      → (n org v : ℕ) (s s1 : Copy) → n < 512
      → s.calls ≡ suc v
      → In (IsOther phy 0 top) s.mem (suc k) org
      → is_kept (s1.mem org n) ≡ false
      → IsLoop phy k org v s n s1
      → let x = s1.mem org n in
        let s3 =
          below
            (get_addr x)
            (get_addr (bit_or (phy s1.calls) (bit_and x mask_pageflag)))
            (enter_new phy (phy v) n x s1) in
        s3.calls ≤ top → IsLoop phy k org v s (suc n) s3
  take_page k below m takes copies n org v s s1 small start olds new l room =
      let x = s1.mem org n in
      let s2 = enter_new phy (phy v) n x s1 in
      let a = get_addr (bit_or (phy s1.calls) (bit_and x mask_pageflag)) in
      let full : s1.calls < top = omega (arith, room, (takes (get_addr x) a s2).0) in
      let e : x ≡ s.mem org n =
        l.frame org (λ m le lt. olds.0 m (omega arith) (omega (arith, lt, full))) n in
      let inside : In (IsOther phy 0 top) s.mem k (get_addr x) =
        rw e (olds.1 n small (ap is_kept (sym e) ∙ new)) in
      let target : a ≡ phy s1.calls =
        ap (λ (b : ℕ). get_addr (bit_or b (bit_and x mask_pageflag)))
          (sym (pages.aligned s1.calls full))
        ∙ merged-addr (phy s1.calls) x
        ∙ pages.aligned s1.calls full in
      let agree : Agree (IsOther phy 0 top) s.mem s2.mem = λ t o j.
        entered phy top pages k org v s s1 n x t j
          (o v (omega arith) (omega (arith, l.grows, start, full))) (o s1.calls (omega arith) full)
        ∙ l.frame t (λ m le lt. o m (omega arith) (omega (arith, lt, full))) j in
      let Done : ℕ → Type 0 = λ b.
        (below (get_addr x) b s2).calls ≤ top
        → IsLoop phy k org v s (suc n) (below (get_addr x) b s2) in
      subst Done (sym target)
        (λ room'. enter phy top pages k org v s s1 n olds.0 _ start room' new inside l (
          copies (get_addr x) s1.calls s2 (omega arith) room'
            (In-agree (IsOther phy 0 top) s.mem s2.mem k (get_addr x) agree inside)))
        room

  dup_entries-IsLoop :
      (k : ℕ) (below : ℕ → ℕ → Copy → Copy) (m : ℕ)
      → Takes m below
      → Copies k below
      → (n org v : ℕ) (s : Copy) → n ≤ 512
      → s.calls ≡ suc v
      → (dup_entries phy below n org (phy v) s).calls ≤ top
      → In (IsOther phy 0 top) s.mem (suc k) org
      → IsLoop phy k org v s n (dup_entries phy below n org (phy v) s)
  unfolding dup_entries
  dup_entries-IsLoop k below m takes copies zero org v s small start room olds = record {
    grows = omega arith;
    frame = λ t o i. refl;
    done = λ i lt. absurd (omega (arith, lt));
  }
  dup_entries-IsLoop k below m takes copies (suc n) org v s small start room olds =
      let s1 = dup_entries phy below n org (phy v) s in
      let x = s1.mem org n in
      let next =
        takes (get_addr x) (get_addr (bit_or (phy s1.calls) (bit_and x mask_pageflag)))
          (enter_new phy (phy v) n x s1) in
      let before : s1.calls ≤ top → IsLoop phy k org v s n s1 = λ le.
        dup_entries-IsLoop k below m takes copies n org v s (omega (arith, small)) start le olds in
      let Done : Copy → Type 0 = λ t. t.calls ≤ top → IsLoop phy k org v s (suc n) t in
      if_split Done (is_kept x) _ _
        (λ kept le. keep phy top pages k org v s s1 n olds.0 start le kept (before le))
        (λ new le.
          take_page k below m takes copies n org v s s1 (omega (arith, small)) start olds new
            (before (omega (arith, le, next.0))) le)
        room

  dup_table-IsCopy : (k : ℕ) → Copies k (dup_table phy k)
  unfolding dup_table
  dup_table-IsCopy zero org v s start room olds = copy_table-IsCopy org v s start
  dup_table-IsCopy (suc k) org v s start room olds =
      let s' = dup_entries phy (dup_table phy k) 512 org (phy v) s in
      finish phy k org v s s' start (
        dup_entries-IsLoop k (dup_table phy k) (most_pages k) (dup_table-Takes phy k)
          (dup_table-IsCopy k) 512 org v s (omega arith) start room olds)

module _ (phy : ℕ → ℕ) (org_pml4 : ℕ) (s : Copy) (top : ℕ)
    (enough : s.calls + 1 + 512 * (1 + 512 * (1 + 512)) ≤ top) (pages : ArePages phy top)
    (olds : In (IsOther phy 0 top) s.mem 3 org_pml4) where
  -- Giving out a page for the PML4 changes none of the kernel's tables.
  first_page : Agree (IsOther phy 0 top) s.mem (clear_table s.mem (phy s.calls))
  first_page t o j =
      cleared s.mem (phy s.calls) t j (o s.calls (omega arith) (omega (arith, enough)))

  dup_page_table_for_host-IsCopy :
      IsCopy phy 3 org_pml4 s.calls
        (record {
          mem = clear_table s.mem (phy s.calls);
          calls = s.calls + 1;
          hidden = s.calls ∷ s.hidden;
        })
        (dup_page_table_for_host phy 0 org_pml4 s)
  unfolding dup_page_table_for_host
  dup_page_table_for_host-IsCopy =
      let s0 : Copy = record {
        mem = clear_table s.mem (phy s.calls);
        calls = s.calls + 1;
        hidden = s.calls ∷ s.hidden;
      } in
      dup_table-IsCopy phy top pages 3 org_pml4 s.calls s0 (omega arith)
        (omega (arith, (dup_table-Takes phy 3 org_pml4 (phy s.calls) s0).1, enough))
        (In-agree (IsOther phy 0 top) s.mem s0.mem 3 org_pml4 first_page olds)

-- Every page that is taken, also the one of the PML4, is hidden from the guest.
dup_page_table_for_host-IsHidden :
    (phy : ℕ → ℕ) (org_pml4 : ℕ) (s : Copy)
    → IsHidden s.calls (dup_page_table_for_host phy 0 org_pml4 s)
unfolding dup_page_table_for_host
dup_page_table_for_host-IsHidden phy org_pml4 s =
    dup_table-Hides phy 3 org_pml4 (phy s.calls) s.calls _
      (λ m. hidden_next s.calls s.calls m s.hidden (λ n le lt. absurd (omega (arith, le, lt))))

-- At the first start, where the pages that can be taken, at most 1 + 512 * (1 + 512 * (1 + 512)),
-- differ from each other, are aligned and are none of the kernel's tables: for every address, the
-- walk through the copy ends with the same entry as the walk through the kernel's tables, whatever
-- their entries hold. Every table of the copy, to the last level, is on a page that this call took,
-- each of these pages has been hidden from the guest, and the tables on none of them are as they were.
pub get_phy_from_log-dup_page_table_for_host :
    (phy : ℕ → ℕ) (org_pml4 : ℕ) (s : Copy) (top : ℕ)
    → s.calls + 1 + 512 * (1 + 512 * (1 + 512)) ≤ top
    → ArePages phy top
    → In (IsOther phy 0 top) s.mem 3 org_pml4
    → let s' = dup_page_table_for_host phy 0 org_pml4 s in
      ((addr : ℕ)
        → get_phy_from_log s'.mem (phy s.calls) addr 3 ≡ get_phy_from_log s.mem org_pml4 addr 3)
      × In (IsPage phy s.calls s'.calls) s'.mem 3 (phy s.calls)
      × Agree (IsOther phy s.calls s'.calls) s.mem s'.mem
      × IsHidden s.calls s'
unfolding get_phy_from_log
get_phy_from_log-dup_page_table_for_host phy org_pml4 s top enough pages olds =
    let c = dup_page_table_for_host-IsCopy phy org_pml4 s top enough pages olds in
    let first = first_page phy org_pml4 s top enough pages olds in
    (
      λ addr.
          c.same addr (λ i. 0) (λ i. 0) refl
          ∙ ends-agree (IsOther phy 0 top) s.mem _ addr 3 org_pml4 (λ i. 0) (λ i. 0) first olds
              refl,
      c.fresh,
      λ t o j.
          c.frame t o j
          ∙ cleared s.mem (phy s.calls) t j (o s.calls (omega arith) (omega (arith, c.grows))),
      dup_page_table_for_host-IsHidden phy org_pml4 s,
    )
