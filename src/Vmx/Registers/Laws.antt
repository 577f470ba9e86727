-- ===== src/Vmx/Registers/Laws.antt =====
-- Writing a register by its index and reading it back.
use alcatraz.Prelude.{
  ℕ, ◌<◌, ◌≡◌, ◌≢◌, arith, ◌==◌, if◌then◌else◌, Bool-cases, inl, inr, ==_iff, ==_self,
}
use alcatraz.Vmx.Registers.{Vm, get_reg_value_from_index, set_reg_value_from_index}

get_reg-set_reg_self :
    (s : Vm) (i v : ℕ) → i < 16 → get_reg_value_from_index (set_reg_value_from_index s i v) i ≡ v
unfolding get_reg_value_from_index set_reg_value_from_index
get_reg-set_reg_self s i v h = ground arith

get_reg-set_reg_ne :
    (s : Vm) (i j v : ℕ)
    → i ≢ j
    → get_reg_value_from_index (set_reg_value_from_index s i v) j ≡ get_reg_value_from_index s j
unfolding get_reg_value_from_index set_reg_value_from_index
get_reg-set_reg_ne s i j v h = ground arith

-- One of the sixteen registers that is written by its index holds the value afterwards, RSP in the
-- VMCS included, and no other register changes.
pub get_reg-set_reg :
    (s : Vm) (i j v : ℕ)
    → i < 16
    → get_reg_value_from_index (set_reg_value_from_index s i v) j
      ≡ (if i == j then v else get_reg_value_from_index s j)
get_reg-set_reg s i j v h = elim (Bool-cases (i == j)) [
  | inl e ↦ rw (← (==_iff i j).0 e) (ground (arith, ==_self i, get_reg-set_reg_self s i v h))
  | inr e ↦ ground (arith, e, get_reg-set_reg_ne s i j v)
]
