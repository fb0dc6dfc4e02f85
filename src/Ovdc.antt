-- ===== src/Ovdc.antt =====
-- controllers/capi_objects_utils.go: organisations and organisation data centers (OVDCs), and the
-- map of resources in the status of a VCDCluster. controllers/vcdcluster_controller.go: the client
-- of a reconcile, which is created from the credentials and pointed at the OVDC of the cluster.
pub mod Resources
pub mod Client
