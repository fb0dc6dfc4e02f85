-- ===== src/Machine.antt =====
-- controllers/vcdmachine_controller.go: the reconciler of VCDMachine objects.
pub mod Bootstrap
pub mod CloudInit
pub mod Common
pub mod Delete
pub mod Disk
pub mod Networks
pub mod Pool
pub mod Normal
pub mod Reconcile
pub mod Script
pub mod PostCustomization
pub mod Vm
