-- ===== src/Memory/PageTable/Dup/Loop.antt =====
-- Each turn of the loop of `hb_dup_page_table_for_host` keeps what the ones before it have done.
use alcatraz.Prelude.{
  ℕ, suc, ◌≤◌, ◌<◌, ◌≡◌, ◌≢◌, refl, ap, sym, subst, ◌∙◌, true, false, ◌==◌, arith, Bool-cases, inl,
  inr, if_true, if_false, ==_self, ==_iff, bit_and, bit_or,
}
use alcatraz.Memory.PageTable.{
  Tables, put_entry, clear_table, mask_pageflag, get_addr, is_present, is_size_flag_set,
}
use alcatraz.Memory.PageTable.Masks.{merged, merged-addr, merged-present, merged-size}
use alcatraz.Memory.PageTable.Dup.{Copy, is_kept, enter_new}
use alcatraz.Memory.PageTable.Dup.Frame.{In, In-mono, Agree, ends-agree, Follows}
use alcatraz.Memory.PageTable.Dup.Laws.{IsPage, IsCopy, IsDone, IsLoop, IsOther, still}

-- The first `top` pages differ from each other, and each starts at an address that an entry can hold.
pub record ArePages (phy : ℕ → ℕ) (top : ℕ) : Type 0 where
  pub apart : (m n : ℕ) → m < top → n < top → phy m ≡ phy n → m ≡ n
  pub aligned : (n : ℕ) → n < top → get_addr (phy n) ≡ phy n

pub ==_other : (a b : ℕ) → a ≢ b → (a == b) ≡ false
==_other a b h = elim (Bool-cases (a == b)) [ inl e ↦ absurd (h ((==_iff a b).0 e)) | inr e ↦ e ]

put_at : (mem : Tables) (t i x : ℕ) → put_entry mem t i x t i ≡ x
put_at mem t i x = if_true x (mem t i) (rw (==_self t, ==_self i) refl)

put_table : (mem : Tables) (t i x u j : ℕ) → u ≢ t → put_entry mem t i x u j ≡ mem u j
put_table mem t i x u j h = if_false x (mem u j) (rw (==_other u t h) refl)

put_index : (mem : Tables) (t i x j : ℕ) → j ≢ i → put_entry mem t i x t j ≡ mem t j
put_index mem t i x j h = if_false x (mem t j) (rw (==_self t, ==_other j i h) refl)

pub cleared : (mem : Tables) (t u j : ℕ) → u ≢ t → clear_table mem t u j ≡ mem u j
cleared mem t u j h = if_false 0 (mem u j) (==_other u t h)

-- An entry taken over leads where it led.
same_entry :
    (mem mem' : Tables) (addr k e e' : ℕ) → is_kept e ≡ true → e' ≡ e → Follows mem mem' addr k e e'
same_entry mem mem' addr k e e' kept eq = record {
  present = ap is_present eq;
  size = ap is_size_flag_set eq;
  below = λ goes. absurd (cc (kept, goes));
  kept = λ h. eq;
}

-- What the loop has done with its first entries, and with the next one.
one_more :
    (P : ℕ → Type 0) (n : ℕ) → ((i : ℕ) → i < n → i ≢ n → P i) → P n → (i : ℕ) → i < suc n → P i
one_more P n before last i lt = elim (Bool-cases (i == n)) [
  | inr other ↦ before i (ground arith) (ground arith)
  | inl this ↦ subst P (sym ((==_iff i n).0 this)) last
]

later :
    (phy : ℕ → ℕ) (top : ℕ)
    → ArePages phy top
    → (v w t : ℕ) → v < w
    → w < top
    → t ≡ phy w
    → t ≢ phy v
later phy top pages v w t lt below e q =
    let same : w ≡ v = pages.apart w v below (omega (arith, lt, below)) (sym e ∙ q) in
    absurd (omega (arith, same))

module _ (phy : ℕ → ℕ) (top : ℕ) (pages : ArePages phy top) (k org v : ℕ) (s s1 : Copy)
    (n : ℕ) where
  -- The loop takes an entry over.
  pub keep :
      IsOther phy 0 top org
      → s.calls ≡ suc v
      → s1.calls ≤ top
      → is_kept (s1.mem org n) ≡ true
      → IsLoop phy k org v s n s1
      → IsLoop phy k org v s (suc n) (record s1 { mem = put_entry s1.mem (phy v) n (s1.mem org n) })
  keep old start room kept l =
      let e : s1.mem org n ≡ s.mem org n =
        l.frame org (λ m le lt. old m (omega arith) (omega (arith, lt, room))) n in
      let mem2 : Tables = put_entry s1.mem (phy v) n (s1.mem org n) in
      let s2 : Copy = record s1 { mem = mem2 } in
      let at : s2.mem (phy v) n ≡ s.mem org n = put_at s1.mem (phy v) n _ ∙ e in
      let was : is_kept (s.mem org n) ≡ true = ap is_kept (sym e) ∙ kept in
      record {
        grows = l.grows;
        frame = λ t o i.
            put_table s1.mem (phy v) n _ t i (o v (omega arith) (omega (arith, l.grows, start)))
            ∙ l.frame t o i;
        done =
            one_more (IsDone phy k org v s.mem s2) n
              (λ i lt other.
                still phy k org v s.mem s1 s2 i (omega arith)
                  (λ t p j. put_table s1.mem (phy v) n _ t j (
                    later phy top pages v p.0 t (omega (arith, p.1)) (omega (arith, p.2, room))
                      p.3))
                  (put_index s1.mem (phy v) n _ i other) (l.done i lt))
              (record {
                leads = λ addr. same_entry s.mem mem2 addr k _ _ was at;
                inside = λ goes. absurd (cc (was, goes));
                goes = λ h. ap is_kept at ∙ was;
              });
      }

  -- Entering a new table changes two tables.
  pub entered :
      (x u j : ℕ)
      → u ≢ phy v
      → u ≢ phy s1.calls
      → (enter_new phy (phy v) n x s1).mem u j ≡ s1.mem u j
  entered x u j a b =
      put_table (clear_table s1.mem (phy s1.calls)) (phy v) n _ u j a
      ∙ cleared s1.mem (phy s1.calls) u j b

  -- The entry for a new table leads where the kernel's entry leads.
  new_leads :
      (x e' : ℕ) (s3 : Copy)
      → v < s1.calls
      → s1.calls < top
      → Agree (IsOther phy 0 top) s.mem s1.mem
      → is_kept x ≡ false
      → In (IsOther phy 0 top) s.mem k (get_addr x)
      → IsCopy phy k (get_addr x) s1.calls (enter_new phy (phy v) n x s1) s3
      → e' ≡ merged (phy s1.calls) x
      → get_addr e' ≡ phy s1.calls
      → (addr : ℕ) → Follows s.mem s3.mem addr k x e'
  new_leads x e' s3 lo room unchanged new olds c at target addr =
      let s2 = enter_new phy (phy v) n x s1 in
      let agree : Agree (IsOther phy 0 top) s.mem s2.mem = λ t o j.
        entered x t j (o v (omega arith) (omega (arith, lo, room))) (o s1.calls (omega arith) room)
        ∙ unchanged t o j in
      record {
        present = ap is_present at ∙ merged-present (phy s1.calls) x;
        size = ap is_size_flag_set at ∙ merged-size (phy s1.calls) x;
        below = λ goes out out' q. rw target (
            c.same addr out out' q
            ∙ ends-agree (IsOther phy 0 top) s.mem s2.mem addr k (get_addr x) out out agree olds
                refl);
        kept = λ h. absurd (cc (h, new));
      }

  -- The entry for a new table, whose copy is on the page taken for it.
  pub enter :
      IsOther phy 0 top org
      → (s3 : Copy) → s.calls ≡ suc v
      → s3.calls ≤ top
      → is_kept (s1.mem org n) ≡ false
      → In (IsOther phy 0 top) s.mem k (get_addr (s1.mem org n))
      → IsLoop phy k org v s n s1
      → IsCopy phy k
          (get_addr (s1.mem org n))
          s1.calls
          (enter_new phy (phy v) n (s1.mem org n) s1)
          s3
      → IsLoop phy k org v s (suc n) s3
  enter old s3 start room new olds l c =
      let full : s1.calls < top = omega (arith, c.grows, room) in
      let lo : v < s1.calls = omega (arith, l.grows, start) in
      let x = s1.mem org n in
      let s2 = enter_new phy (phy v) n x s1 in
      let e : x ≡ s.mem org n =
        l.frame org (λ m le lt. old m (omega arith) (omega (arith, lt, full))) n in
      let below : (m : ℕ) → s1.calls ≤ m → m < s3.calls → phy v ≢ phy m = λ m le lt q.
        later phy top pages v m (phy m) (omega (arith, lo, le)) (omega (arith, lt, room)) refl
          (sym q) in
      let at : s3.mem (phy v) n ≡ merged (phy s1.calls) x =
        c.frame (phy v) below n
        ∙ put_at (clear_table s1.mem (phy s1.calls)) (phy v) n _
        ∙ ap (λ (a : ℕ). bit_or a (bit_and x mask_pageflag)) (sym (pages.aligned s1.calls full)) in
      let target : get_addr (s3.mem (phy v) n) ≡ phy s1.calls =
        ap get_addr at ∙ merged-addr (phy s1.calls) x ∙ pages.aligned s1.calls full in
      record {
        grows = omega (arith, l.grows, c.grows);
        frame = λ t o j.
            c.frame t (λ m le. o m (omega (arith, lo, le))) j
            ∙ entered x t j (o v (omega arith) (omega (arith, lo, c.grows)))
                (o s1.calls (omega (arith, lo)) (omega (arith, c.grows)))
            ∙ l.frame t (λ m le lt. o m le (omega (arith, lt, c.grows))) j;
        done =
            one_more (IsDone phy k org v s.mem s3) n
              (λ i lt other.
                still phy k org v s.mem s1 s3 i (omega (arith, c.grows))
                  (λ t p j.
                    c.frame t
                      (λ m le lt q.
                        later phy top pages p.0 m t (omega (arith, p.2, le))
                          (omega (arith, lt, room)) q p.3)
                      j
                    ∙ entered x t j
                        (later phy top pages v p.0 t (omega (arith, p.1)) (omega (arith, p.2, full))
                          p.3)
                        (λ q. later phy top pages p.0 s1.calls t p.2 full q p.3))
                  (c.frame (phy v) below i
                    ∙ put_index (clear_table s1.mem (phy s1.calls)) (phy v) n _ i other
                    ∙ cleared s1.mem (phy s1.calls) (phy v) i
                        (below s1.calls (omega arith) (omega (arith, c.grows))))
                  (l.done i lt))
              (record {
                leads =
                    subst (λ (y : ℕ). (addr : ℕ) → Follows s.mem s3.mem addr k y (s3.mem (phy v) n))
                      e
                      (new_leads x _ s3 lo full
                        (λ t o j.
                          l.frame t (λ m le lt. o m (omega arith) (omega (arith, lt, full))) j)
                        new olds c at target);
                inside = λ goes. rw target (
                    In-mono (IsPage phy s1.calls s3.calls) (IsPage phy (suc v) s3.calls) s3.mem k _
                      (λ t p. (p.0, omega (arith, p.1, l.grows, start), p.2, p.3)) c.fresh);
                goes = λ h. absurd (cc (h, e, new));
              });
      }
