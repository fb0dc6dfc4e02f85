-- ===== src/Api/Cluster.antt =====
-- api/v1beta3/vcdcluster_types.go
use cluster_api_provider_clo.Base.{String, ℕ, Bool, List, Option}
use cluster_api_provider_clo.Api.{Condition, ObjectMeta}

pub record ApiEndpoint : Type 0 where
  pub host : String
  pub port : ℕ

pub record SecretReference : Type 0 where
  pub name : String
  pub namespace : String

pub record UserCredentialsContext : Type 0 where
  pub username : String
  pub password : String
  pub refresh_token : String
  pub secret_ref : Option SecretReference

pub record VcdResource : Type 0 where
  pub kind : String
  pub id : String
  pub name : String

-- A nil list and an empty one are treated alike by every reader.
pub record VcdResourceMap : Type 0 where
  pub ovdcs : List VcdResource

pub record ProxyConfig : Type 0 where
  pub http_proxy : String
  pub https_proxy : String
  pub no_proxy : String

pub record LoadBalancerConfig : Type 0 where
  pub use_one_arm : Bool
  pub vip_subnet : String

pub record VcdClusterSpec : Type 0 where
  pub control_plane_endpoint : ApiEndpoint
  pub site : String
  pub org : String
  pub ovdc : String
  pub ovdc_network : String
  pub user_credentials_context : UserCredentialsContext
  pub rde_id : String
  pub parent_uid : String
  pub use_as_management_cluster : Bool
  pub proxy_config_spec : ProxyConfig
  pub load_balancer_config_spec : LoadBalancerConfig

pub record VcdClusterStatus : Type 0 where
  pub ready : Bool
  pub rde_version_in_use : String
  pub vapp_metadata_updated : Bool
  pub conditions : List Condition
  pub site : String
  pub vcd_resource_map : VcdResourceMap
  pub org : String
  pub ovdc : String
  pub ovdc_network : String
  pub infra_id : String
  pub parent_uid : String
  pub use_as_management_cluster : Bool
  pub proxy_config : ProxyConfig
  pub load_balancer_config : LoadBalancerConfig

pub record VcdCluster : Type 0 where
  pub meta : ObjectMeta
  pub spec : VcdClusterSpec
  pub status : VcdClusterStatus

-- clusterv1.Cluster, as far as the reconcilers read it
pub record OwnerCluster : Type 0 where
  pub name : String
  pub phase : String
  pub control_plane_ready : Bool
  pub infrastructure_ready : Bool
  pub infrastructure_name : String
  pub conditions : List Condition
  pub annotation : String → Option String
