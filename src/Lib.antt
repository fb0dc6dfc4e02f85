-- ===== src/Lib.antt =====
-- A model of cluster-api-provider-cloud-director (CAPVCD), the Cluster API provider that runs
-- Kubernetes clusters on VMware Cloud Director, and what is proved about it.
--
-- The program is a set of Kubernetes reconcilers. One reconcile reads an object, calls the
-- Kubernetes API server and Cloud Director, assigns to the object in memory, and patches it at the
-- end. The cluster reconciler (controllers/vcdcluster_controller.go) has three parts after the
-- client is there: the infra ID, which is the ID of the runtime defined entity (RDE) of the cluster
-- or a generated one; the load balancer of the control plane; and the contents of the RDE. Deletion
-- takes the load balancer, the vApp and the RDE away before the finalizer. The machine reconciler
-- (controllers/vcdmachine_controller.go) creates the vApp and a VM in it, sets its networks and its
-- disk, joins it to the load balancer's pool, boots it with a cloud-init script and waits for its
-- phases; deletion takes the VM out of the pool and away. Both share the cluster's infra ID, which
-- they compare with the metadata of the vApp, and write errors and events to the same RDE.
--
-- Files, by the code that they model:
--   Base, Effect      Go's equality tests and control flow: a body returns early, goes on with a
--                     value, or panics, and passes the objects in memory on (`Fun Store R` is a
--                     function that returns an `R`). Effect/Keeps is about what a body leaves alone.
--   Api               api/v1beta3: VCDCluster, VCDMachine, conditions, errors.
--   Json              map[string]interface{} of a JSON document.
--   Vcd               Cloud Director and Kubernetes. Vcd/Calls has one constructor for each remote
--                     call; Vcd/Env has the answers, which are functions of the whole trace of
--                     calls, the documented laws of the helper libraries, and the Store: cluster,
--                     machine, trace. Vcd/History and Vcd/Objects are about traces and objects.
--   Ovdc              controllers/capi_objects_utils.go: the OVDC resource map (Ovdc/Resources), the
--                     lookup and rename of the OVDC and createVCDClientFromSecrets (Ovdc/Client).
--   Rde               pkg/capisdk/defined_entity.go and pkg/vcdtypes: the content of an RDE
--                     (Rde/Types), its sets (Rde/Sets), PatchRDE (Rde/Patch), versions (Rde/Version)
--                     and upgrades (Rde/Convert).
--   Entity            controllers/capi_objects_utils.go: the control planes, machine deployments
--                     and machines of a cluster, getNodePoolList and
--                     hasClusterReconciledToDesiredK8Version (Entity/Nodes). From
--                     vcdcluster_controller.go: constructCapvcdRDE and
--                     constructAndCreateRDEFromCluster (Entity/Create), and reconcileRDE
--                     (Entity/Reconcile) with its upgrade section (Entity/Upgrade) and its patches
--                     (Entity/Patches).
--   Cluster           controllers/vcdcluster_controller.go: validateDerivedRDEProperties
--                     (Cluster/Validate), reconcileInfraID (Cluster/InfraId), reconcileLoadBalancer
--                     (Cluster/LoadBalancer), the deletion (Cluster/Delete), reconcileNormal and
--                     Reconcile (Cluster/Normal).
--   Machine           controllers/vcdmachine_controller.go: waitForPostCustomizationPhase, over the
--                     list of what its rounds are answered (Machine/PostCustomization), the rest of
--                     the bootstrap (Machine/Bootstrap), the cloud-init script (Machine/CloudInit,
--                     Machine/Script), the networks of a VM with their shared pointers
--                     (Machine/Networks), its disk (Machine/Disk), VM and vApp (Machine/Vm), the
--                     load balancer's pool (Machine/Pool), the deletion (Machine/Delete),
--                     reconcileNormal (Machine/Normal) and Reconcile (Machine/Reconcile).
--   Tests             a Cloud Director where every call succeeds, and the theorems applied to it.
--
-- Loops: PatchRDE and the converters try at most ten times (MaxUpdateRetries), and the model counts
-- the rounds that are left; the other loops run over lists. Numbers are natural numbers, ports
-- included; the size of a disk is rounded to a float64 as the code does, and an int32 of it wraps
-- around at 2 ^ 32, its sign bit read as a bit of the number. In a wait for a phase, the rounds of
-- the guest end with one that comes after the 600 seconds. Errors keep the fixed text of their
-- message, and the sentinels and types that the code compares with. Log lines, time stamps and
-- detail texts are left out. An answer of Cloud Director may be anything.
--
-- Status().Patch decodes the answer of the API server into the cluster; the laws of Vcd/Env say that
-- this answer has the infra ID, the RDE version and the ready flag that were sent.
--
-- Not modelled: the registration of the controllers and their event mappings; YAML export, whose
-- documents are answers to calls; webhooks and conversions; main.go; generated code; vendored
-- libraries, which are the answers of Vcd/Env and of Entity/Reconcile.
pub mod Base
pub mod Effect
pub mod Api
pub mod Json
pub mod Vcd
pub mod Ovdc
pub mod Rde
pub mod Entity
pub mod Cluster
pub mod Machine
pub mod Tests
