-- ===== src/Entity.antt =====
-- The contents of an RDE, from controllers/capi_objects_utils.go and vcdcluster_controller.go.
pub mod Create
pub mod Nodes
pub mod Patches
pub mod Reconcile
pub mod Upgrade
