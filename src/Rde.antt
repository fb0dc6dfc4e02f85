-- ===== src/Rde.antt =====
-- pkg/capisdk/defined_entity.go and capi_gateway_manager.go: the runtime defined entity (RDE) of a
-- cluster, which records its errors and events, and the names of the load balancer's parts.
pub mod Types
pub mod Sets
pub mod Patch
pub mod Version
pub mod Convert
pub mod Keeps
