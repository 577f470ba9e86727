-- ===== src/Monitor.antt =====
-- Source/hyper_box/monitor.c and monitor.h: the monitor of Hyper-box, which follows the tasks of
-- the guest kernel and checks what they do.
pub mod Cred
pub mod Tree
pub mod Manager
pub mod Path
pub mod Callback
pub mod Integrity
pub mod TaskList
