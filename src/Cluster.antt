-- ===== src/Cluster.antt =====
-- controllers/vcdcluster_controller.go: the reconciler of VCDCluster objects.
pub mod Common
pub mod Delete
pub mod Validate
pub mod InfraId
pub mod LoadBalancer
pub mod Normal
