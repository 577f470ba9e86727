-- ===== src/Vmx/Exit.antt =====
-- Every exit of a guest: `hb_vm_exit_callback` of Source/hyper_box/hypervisor.c with the small
-- handlers that it calls, built as hyper_box.h sets it (HYPERBOX_USE_EPT, _SLEEP, _HW_BREAKPOINT and
-- _VMCS_SHADOWING, without profiling and debugging). The loop in which a processor waits after an
-- INIT signal while the system restarts is not modelled.
pub mod Instructions
pub mod Dispatch
pub mod Steps
pub mod Entry
pub mod Moves
pub mod Resume
pub mod Launch
pub mod Registers
pub mod Laws
use alcatraz.Prelude.{
  ℕ, ◌+◌, ◌-◌, ◌*◌, ◌/◌, ◌%◌, ◌^◌, ◌==◌, ◌&&◌, ◌||◌, not, ltb, leb, Bool, if◌then◌else◌, bit_and,
  List, ◌∷◌,
}
use alcatraz.Memory.RoArea.{RoAddr}
use alcatraz.Monitor.Cred.{Cred}
use alcatraz.Monitor.Tree.{RbLib}
use alcatraz.Monitor.Manager.{Task}
use alcatraz.Monitor.Callback.{Monitor}
use alcatraz.Vmx.Registers.{Vm}
use alcatraz.Vmx.Nested.{Host, processor, on_processor}
use alcatraz.Vmx.Shadow.{Shadow}
use alcatraz.Vmx.Descriptor.{Access}
use alcatraz.Vmx.Breakpoint.{Machine}
use alcatraz.Vmx.Violation.{Violation}
use alcatraz.Ept.{Ept, Kernel}
use alcatraz.Ept.Own.{
  ListedModule, protect_hyper_box_module, protect_mode_hide, protect_monitor_data,
}

-- What the handlers read and no exit changes. `periodic` is what `hb_callback_vm_timer` does to the
-- monitor, `cpuid`, `cr2`, `cr8` and `time` are the processor's answers, `msecs` is
-- `jiffies_to_msecs`, `timer_value` is `hb_calc_vm_pre_timer_value`.
pub record Machinery : Type 0 where
  pub rb : RbLib
  pub current : Task
  pub task_at : ℕ → Task
  pub periodic : Monitor → Monitor
  pub ro : List RoAddr
  pub sleep_notify : ℕ
  pub shutdowning : Bool
  pub host : Host
  pub loadable : ℕ → Bool
  pub guest_vmcs : ℕ
  pub log_info : ℕ
  pub cr2 : ℕ
  pub cr8 : ℕ
  pub cpuid : ℕ → ℕ → ℕ × ℕ × ℕ × ℕ
  pub time : ℕ
  pub msecs : ℕ → ℕ
  pub timer_value : ℕ
  pub kernel : Kernel
  pub own_module : ListedModule
  pub module_size : ℕ
  pub task_pool : ℕ
  pub node_size : ℕ
  pub task_node_max : ℕ
  pub test_dr : ℕ → ℕ
  pub secure_since : ℕ

-- A processor with what the exits on it change. `timer` says that the shutdown timer is running.
pub record Cpu : Type 0 where
  pub shadow : Shadow
  pub monitor : Monitor
  pub cred_at : ℕ → Cred
  pub dr : ℕ → ℕ
  pub ept : Ept
  pub timer : Bool
  pub shutdown_jiffies : ℕ
  pub errors : List ℕ
  pub msr : ℕ → ℕ
  pub xcr : ℕ → ℕ
  pub allow_hide : ℕ
  pub need_init : ℕ
  pub root_mode : ℕ

-- The parts of the state as the handlers see them.
abbrev pub vm_of : Cpu → Vm
vm_of c = processor c.shadow.nested

abbrev pub on_vm : (Vm → Vm) → Cpu → Cpu
on_vm f c = record c { shadow = record c.shadow { nested = on_processor f c.shadow.nested } }

abbrev pub put_vm : Cpu → Vm → Cpu
put_vm c v = on_vm (λ u. v) c

abbrev pub on_shadow : (Shadow → Shadow) → Cpu → Cpu
on_shadow f c = record c { shadow = f c.shadow }

abbrev pub machine_of : Cpu → Machine
machine_of c = record { vm = vm_of c; monitor = c.monitor; cred_at = c.cred_at; dr6 = c.dr 6 }

abbrev pub put_machine : Cpu → Machine → Cpu
put_machine c m = record (put_vm c m.vm) {
  monitor = m.monitor;
  cred_at = m.cred_at;
  dr = λ i. if i == 6 then m.dr6 else c.dr i;
}

abbrev pub access_of : Cpu → Access
access_of c = record { vm = vm_of c; memory = c.shadow.nested.memory }

abbrev pub put_access : Cpu → Access → Cpu
put_access c a =
    let c' = put_vm c a.vm in
    record c' {
      shadow = record c'.shadow { nested = record c'.shadow.nested { memory = a.memory } };
    }

abbrev pub violation_of : Cpu → Violation
violation_of c = record {
  vm = vm_of c;
  ept = c.ept;
  timer = c.timer;
  shutdown_jiffies = c.shutdown_jiffies;
  errors = c.errors;
}

abbrev pub put_violation : Cpu → Violation → Cpu
put_violation c v = record (put_vm c v.vm) {
  ept = v.ept;
  timer = v.timer;
  shutdown_jiffies = v.shutdown_jiffies;
  errors = v.errors;
}

abbrev error_shutdown_time_out : ℕ
error_shutdown_time_out = 6

abbrev shutdown_time_limit_ms : ℕ
shutdown_time_limit_ms = 600000

-- `hb_is_shutdown_timer_expired`, whose answer is not used.
unfoldable pub check_shutdown_timer : Machinery → Cpu → Cpu
check_shutdown_timer e c =
    let value = (e.time + 2 ^ 64 - c.shutdown_jiffies) % 2 ^ 64 in
    if c.timer && leb shutdown_time_limit_ms (e.msecs value)
    then record c { errors = error_shutdown_time_out ∷ c.errors; shutdown_jiffies = e.time }
    else c

abbrev hyper_box_hide_time_buffer_ms : ℕ
hyper_box_hide_time_buffer_ms = 1000

-- The module and the monitor's data are hidden once, some time after the start.
unfoldable pub hide_hyper_box : Machinery → Cpu → Cpu
hide_hyper_box e c =
    let due =
      c.allow_hide == 1
      && leb hyper_box_hide_time_buffer_ms
          (e.msecs ((e.time + 2 ^ 64 - e.secure_since) % 2 ^ 64)) in
    let hidden =
      protect_hyper_box_module e.kernel e.module_size e.own_module protect_mode_hide c.ept in
    if due && not (c.need_init == 0)
    then record c {
      ept = protect_monitor_data e.kernel e.task_pool e.node_size e.task_node_max hidden;
      need_init = if c.need_init == 1 then 0 else c.need_init;
      allow_hide = 0;
    }
    else c
