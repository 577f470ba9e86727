-- ===== src/Monitor/Integrity/Timer.antt =====
-- What the periodic check of function pointers leaves in its flags, over any run of the timer.
use alcatraz.Prelude.{
  ℕ, List, [], ◌∷◌, Bool, true, false, ◌==◌, if◌then◌else◌, ◌≡◌, refl, arith, ◌≢◌, ◌∙◌,
}
use alcatraz.Memory.RoArea.{RoAddr}
use alcatraz.Monitor.Integrity.Pointers.{Config}
use alcatraz.Monitor.Integrity.{
  Objects, check_timer_expired_and_update, Periodic, check_function_pointers_periodic,
}
use alcatraz.Monitor.Integrity.Laws.{
  in_ro, vfs_pointers, net_pointers, check_vfs_object-in_ro, check_net_object-in_ro,
}

-- One timer interrupt: the read-only areas and the objects at that time, whether the lock was free,
-- and `jiffies`.
pub record Tick : Type 0 where
  pub ro : List RoAddr
  pub objects : Objects
  pub locked : Bool
  pub jiffies : ℕ

module _ (c : Config) (usecs : ℕ → ℕ) where
  abbrev pub tick : Tick → Periodic → Periodic
  tick t s = check_function_pointers_periodic c usecs t.ro t.objects t.locked t.jiffies s

  abbrev pub ticks : List Tick → Periodic → Periodic
  ticks [] s = s
  ticks (t ∷ ts) s = ticks ts (tick t s)

  -- A check whose timer has expired raises the flag of the file systems, if it is not up yet, when a
  -- pointer behind the files lies outside the read-only areas, and that of the network objects
  -- likewise; it takes no flag down.
  pub tick_flags :
      (t : Tick) (s : Periodic)
      → (check_timer_expired_and_update c usecs t.locked t.jiffies s.last_dkom_check_jiffies).0
        ≡ true
      → ((tick t s).vfs_object_attack_detected ≡ (
          if s.vfs_object_attack_detected == 0
          then if in_ro t.ro (vfs_pointers c t.objects) then 0 else 1
          else s.vfs_object_attack_detected))
        × ((tick t s).net_object_attack_detected ≡ (
            if s.net_object_attack_detected == 0
            then if in_ro t.ro (net_pointers c t.objects) then 0 else 1
            else s.net_object_attack_detected))
  unfolding check_function_pointers_periodic
  tick_flags t s h = (
    ground (arith, h, check_vfs_object-in_ro c t.ro t.objects),
    ground (arith, h, check_net_object-in_ro c t.ro t.objects),
  )

  tick_keeps :
      (t : Tick) (s : Periodic)
      → s.vfs_object_attack_detected ≢ 0
      → (tick t s).vfs_object_attack_detected ≡ s.vfs_object_attack_detected
  unfolding check_function_pointers_periodic
  tick_keeps t s h = ground arith

  ticks_keep :
      (ts : List Tick) (s : Periodic)
      → s.vfs_object_attack_detected ≢ 0
      → (ticks ts s).vfs_object_attack_detected ≡ s.vfs_object_attack_detected
  ticks_keep [] s h = refl
  ticks_keep (t ∷ ts) s h =
      ticks_keep ts (tick t s) (λ e. h (cc (e, tick_keeps t s h))) ∙ tick_keeps t s h

  -- An attack on the file systems' pointers that is seen once stays detected, whatever timer
  -- interrupts follow, even when the pointers are put back.
  pub detection_stays :
      (t : Tick) (s : Periodic) (ts : List Tick)
      → (check_timer_expired_and_update c usecs t.locked t.jiffies s.last_dkom_check_jiffies).0
        ≡ true
      → s.vfs_object_attack_detected ≡ 0
      → in_ro t.ro (vfs_pointers c t.objects) ≡ false
      → (ticks ts (tick t s)).vfs_object_attack_detected ≡ 1
  detection_stays t s ts h z bad =
      let up : (tick t s).vfs_object_attack_detected ≡ 1 =
        ground (arith, (tick_flags t s h).0, z, bad) in
      ticks_keep ts (tick t s) (λ e. absurd (omega (arith, e, up))) ∙ up
