-- ===== src/Memory/PageTable/Dup/Frame.antt =====
-- Which tables a walk reads, and that nothing else matters to it.
use alcatraz.Prelude.{
  ℕ, zero, suc, ◌-◌, ◌<◌, ◌≡◌, refl, ap, sym, subst, ◌∙◌, Bool, true, false, not, ◌==◌, ◌||◌,
  if◌then◌else◌, arith, Bool-cases, inl, inr,
}
use alcatraz.Memory.PageTable.{
  Tables, PageEntry, get_addr, is_present, is_size_flag_set, index_of, set_phy, of_large_page, walk,
}
use alcatraz.Memory.PageTable.Dup.{is_kept}

-- The tables from one of a level on all satisfy a predicate.
abbrev pub In : (ℕ → Type 0) → Tables → ℕ → ℕ → Type 0
In P mem zero t = P t
In P mem (suc k) t =
    P t × ((i : ℕ) → i < 512 → is_kept (mem t i) ≡ false → In P mem k (get_addr (mem t i)))

-- Two memories agree on the tables of a predicate.
abbrev pub Agree : (ℕ → Type 0) → Tables → Tables → Type 0
Agree P mem mem' = (t : ℕ) → P t → (i : ℕ) → mem' t i ≡ mem t i

pub In-head : (P : ℕ → Type 0) (mem : Tables) (k t : ℕ) → In P mem k t → P t
In-head P mem zero t p = p
In-head P mem (suc k) t p = p.0

pub In-agree :
    (P : ℕ → Type 0) (mem mem' : Tables) (k t : ℕ) → Agree P mem mem' → In P mem k t → In P mem' k t
In-agree P mem mem' zero t a p = p
In-agree P mem mem' (suc k) t a p = (
  p.0,
  λ i small kept.
      let e = a t p.0 i in
      rw e (In-agree P mem mem' k _ a (p.1 i small (ap is_kept (sym e) ∙ kept))),
)

pub In-mono :
    (P Q : ℕ → Type 0) (mem : Tables) (k t : ℕ)
    → ((t : ℕ) → P t → Q t)
    → In P mem k t
    → In Q mem k t
In-mono P Q mem zero t f p = f t p
In-mono P Q mem (suc k) t f p = (f t p.0, λ i small kept. In-mono P Q mem k _ f (p.1 i small kept))

-- The entry that a walk ends with; what it starts with is kept where it finds no entry.
abbrev pub ends : Tables → ℕ → ℕ → ℕ → PageEntry → ℕ
ends mem addr k t out = walk mem addr k t out 3

branches :
    (b c : Bool) (x y z : PageEntry) (x3 y3 : ℕ)
    → x 3 ≡ x3
    → y 3 ≡ y3
    → (if b then x else if c then y else z) 3 ≡ (if b then x3 else if c then y3 else z 3)
branches true c x y z x3 y3 p q = p
branches false true x y z x3 y3 p q = q
branches false false x y z x3 y3 p q = refl

passed : (out : PageEntry) (k v : ℕ) → set_phy out (2 - k) v 3 ≡ out 3
passed out k v = let other : (3 == 2 - k) ≡ false = ground arith in rw other refl

-- The same, read at one entry of a table above the last level.
pub ends-suc :
    (mem : Tables) (addr k t : ℕ) (out : PageEntry)
    → let e = mem t (index_of addr (suc k)) in
      ends mem addr (suc k) t out ≡ (
        if not (is_present e)
        then out 3
        else if is_size_flag_set e
        then of_large_page addr (suc k) e
        else ends mem addr k (get_addr e) (set_phy out (2 - k) e))
unfolding walk
ends-suc mem addr k t out =
    let e = mem t (index_of addr (suc k)) in
    branches (not (is_present e)) (is_size_flag_set e) _ _ _ _ _ (passed out k e) refl

-- Two walks end alike when each entry that they read is the same, or leads to tables where they do.
pub record Follows (mem mem' : Tables) (addr k : ℕ) (e e' : ℕ) : Type 0 where
  pub present : is_present e' ≡ is_present e
  pub size : is_size_flag_set e' ≡ is_size_flag_set e
  pub below :
      is_kept e ≡ false
      → (out out' : PageEntry) → out 3 ≡ out' 3
      → ends mem' addr k (get_addr e') out' ≡ ends mem addr k (get_addr e) out
  pub kept : is_kept e ≡ true → e' ≡ e

small_entry : (e : ℕ) → is_kept e ≡ true → is_present e ≡ true → is_size_flag_set e ≡ true
small_entry e h p = elim (Bool-cases (e == 0)) [
  | inl z ↦
      let e0 : e ≡ 0 = ground arith in absurd (cc (subst (λ (x : ℕ). is_present x ≡ true) e0 p))
  | inr nz ↦ sym (ap (λ (b : Bool). b || is_size_flag_set e) nz) ∙ h
]

large_kept : (e : ℕ) → is_size_flag_set e ≡ true → is_kept e ≡ true
large_kept e h = elim (Bool-cases (e == 0)) [
  | inl z ↦ ap (λ (b : Bool). b || is_size_flag_set e) z
  | inr nz ↦ ap (λ (b : Bool). b || is_size_flag_set e) nz ∙ h
]

table_goes : (e : ℕ) → is_present e ≡ true → is_size_flag_set e ≡ false → is_kept e ≡ false
table_goes e p s = elim (Bool-cases (is_kept e)) [
  | inl kept ↦ absurd (cc (small_entry e kept p))
  | inr goes ↦ goes
]

module _ (mem : Tables) (addr k t : ℕ) (out : PageEntry) where
  at_absent :
      is_present (mem t (index_of addr (suc k))) ≡ false → ends mem addr (suc k) t out ≡ out 3
  at_absent h = ends-suc mem addr k t out ∙ rw h refl

  at_large :
      is_present (mem t (index_of addr (suc k))) ≡ true
      → is_size_flag_set (mem t (index_of addr (suc k))) ≡ true
      → ends mem addr (suc k) t out ≡ of_large_page addr (suc k) (mem t (index_of addr (suc k)))
  at_large p s = ends-suc mem addr k t out ∙ rw (p, s) refl

  at_table :
      is_present (mem t (index_of addr (suc k))) ≡ true
      → is_size_flag_set (mem t (index_of addr (suc k))) ≡ false
      → ends mem addr (suc k) t out
        ≡ ends mem addr k
            (get_addr (mem t (index_of addr (suc k))))
            (set_phy out (2 - k) (mem t (index_of addr (suc k))))
  at_table p s = ends-suc mem addr k t out ∙ rw (p, s) refl

pub ends-follow :
    (mem mem' : Tables) (addr k t t' : ℕ) (out out' : PageEntry)
    → out 3 ≡ out' 3
    → Follows mem mem' addr k (mem t (index_of addr (suc k))) (mem' t' (index_of addr (suc k)))
    → ends mem' addr (suc k) t' out' ≡ ends mem addr (suc k) t out
ends-follow mem mem' addr k t t' out out' same f =
    let e = mem t (index_of addr (suc k)) in
    let e' = mem' t' (index_of addr (suc k)) in
    elim (Bool-cases (is_present e)) [
      | inr gone ↦
          at_absent mem' addr k t' out' (f.present ∙ gone)
          ∙ sym same
          ∙ sym (at_absent mem addr k t out gone)
      | inl p ↦ elim (Bool-cases (is_size_flag_set e)) [
        | inl large ↦
            at_large mem' addr k t' out' (f.present ∙ p) (f.size ∙ large)
            ∙ ap (of_large_page addr (suc k)) (f.kept (large_kept e large))
            ∙ sym (at_large mem addr k t out p large)
        | inr table ↦
            let goes_on : is_kept e ≡ false = table_goes e p table in
            at_table mem' addr k t' out' (f.present ∙ p) (f.size ∙ table)
            ∙ f.below goes_on _ _ (passed out k e ∙ same ∙ sym (passed out' k e'))
            ∙ sym (at_table mem addr k t out p table)
      ]
    ]

pub index_small : (addr k : ℕ) → index_of addr k < 512
index_small addr k = omega arith

-- Nothing but the tables that it reads matters to a walk.
pub ends-agree :
    (P : ℕ → Type 0) (mem mem' : Tables) (addr k t : ℕ) (out out' : PageEntry)
    → Agree P mem mem'
    → In P mem k t
    → out 3 ≡ out' 3
    → ends mem' addr k t out' ≡ ends mem addr k t out
unfolding walk
ends-agree P mem mem' addr zero t out out' a p same = a t p (index_of addr 0)
ends-agree P mem mem' addr (suc k) t out out' a p same =
    let i = index_of addr (suc k) in
    let e : mem' t i ≡ mem t i = a t p.0 i in
    ends-follow mem mem' addr k t t out out' same (record {
      present = ap is_present e;
      size = ap is_size_flag_set e;
      below = λ goes o o' s. rw e (
          ends-agree P mem mem' addr k (get_addr (mem t i)) o o' a
            (p.1 i (index_small addr (suc k)) goes) s);
      kept = λ k. e;
    })
