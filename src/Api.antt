-- ===== src/Api.antt =====
-- The objects of api/v1beta3 that the controllers reconcile, and what they share.
pub mod Cluster
pub mod Machine
use cluster_api_provider_clo.Base.{String, Bool, List, Option}

-- Errors, as far as the code tells them apart: the two sentinels that it compares with, the type
-- that it asserts, and its own messages. A message keeps the fixed text of the format string.
pub data Err : Type 0 where
  entity_not_found : Err  -- govcd.ErrorEntityNotFound
  not_found : Err  -- apierrors.IsNotFound
  virtual_service_pending : String → Err  -- *vcdsdk.VirtualServicePendingError
  message : String → Err  -- fmt.Errorf, errors.New, errors.Errorf
  caused : String → Err → Err  -- an error that another module built around an error

-- clusterv1.Condition
pub record Condition : Type 0 where
  pub kind : String
  pub status : String
  pub reason : String
  pub severity : String

-- The fields of metav1.ObjectMeta that the controllers read.
pub record ObjectMeta : Type 0 where
  pub name : String
  pub namespace : String
  pub deleting : Bool  -- the deletion timestamp is set
  pub finalizers : List String

-- ctrl.Result; a duration is in seconds
pub record CtrlResult : Type 0 where
  pub requeue : Bool
  pub requeue_after : Prim.Native.Nat.ℕ

-- What a reconcile function returns.
abbrev pub Reply : Type 0
Reply = CtrlResult × Option Err
