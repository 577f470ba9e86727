-- ===== src/Examples/Copies.antt =====
-- The kernel's tables with a page of 4 KB and one of 1 GB, and what the hypervisor copies of them.
use alcatraz.Prelude.{[], ℕ, ◌+◌, ◌*◌, ◌<◌, ◌≡◌, arith, false, ◌&&◌, ◌==◌, if◌then◌else◌}
use alcatraz.Prelude.Bits.{bit_and-dbl, bit_and-ones, ones, hlf, low-eq}
use alcatraz.Memory.PageTable.{Tables, get_phy_from_log}
use alcatraz.Memory.PageTable.Dup.{Copy, is_kept, dup_page_table_for_host}
use alcatraz.Memory.PageTable.Dup.Frame.{In, Agree}
use alcatraz.Memory.PageTable.Dup.Laws.{IsPage, IsOther}
use alcatraz.Memory.PageTable.Dup.Loop.{ArePages}
use alcatraz.Memory.PageTable.Dup.Takes.{IsHidden}
use alcatraz.Memory.PageTable.Dup.Whole.{get_phy_from_log-dup_page_table_for_host}

abbrev kernel : Tables
kernel t i =
    if t == 0x10000 && i == 0
    then 0x11003
    else if t == 0x11000 && i == 0
    then 0x12003
    else if t == 0x11000 && i == 1
    then 0x40000083
    else if t == 0x12000 && i == 0
    then 0x13003
    else if t == 0x13000 && i == 5
    then 0x77003
    else 0

abbrev free : ℕ → ℕ
free n = 0x100000 + n * 4096

abbrev most : ℕ
most = 134480385

free-ArePages : ArePages free most
free-ArePages = record {
  apart = λ m n a b e. omega (arith, e);
  aligned = λ n lt. omega (
    arith,
    bit_and-dbl 12 (free n) (ones 44),
    bit_and-ones 44 (hlf 12 (free n)),
    low-eq 44 (hlf 12 (free n)) (omega (arith, lt)),
  );
}

below_free : (t : ℕ) → t < 0x100000 → IsOther free 0 most t
below_free t lt m a b e = omega (arith, e, lt)

-- The first entry is the only one with a table below it.
only : (t i : ℕ) → t < 0x13000 → is_kept (kernel t i) ≡ false → i ≡ 0
only t i lt h = ground arith

kernel-In : In (IsOther free 0 most) kernel 3 0x10000
kernel-In = (
  below_free 0x10000 (omega arith),
  λ i a h. rw (only 0x10000 i (omega arith) h) (
    below_free 0x11000 (omega arith),
    λ j b h'. rw (only 0x11000 j (omega arith) h') (
      below_free 0x12000 (omega arith),
      λ l c h''. rw (only 0x12000 l (omega arith) h'') (below_free 0x13000 (omega arith)),
    ),
  ),
)

abbrev start : Copy
start = record { mem = kernel; calls = 0; hidden = [] }

get_phy_from_log-dup_page_table_for_host_example :
    let s' = dup_page_table_for_host free 0 0x10000 start in
    ((addr : ℕ) → get_phy_from_log s'.mem 0x100000 addr 3 ≡ get_phy_from_log kernel 0x10000 addr 3)
    × In (IsPage free 0 s'.calls) s'.mem 3 0x100000
    × Agree (IsOther free 0 s'.calls) kernel s'.mem
    × IsHidden 0 s'
get_phy_from_log-dup_page_table_for_host_example =
    get_phy_from_log-dup_page_table_for_host free 0x10000 start most (omega arith) free-ArePages
      kernel-In
