-- ===== src/Vcd/Objects.antt =====
-- What holds of the cluster, or of the machine, in memory, whatever calls are made.
use cluster_api_provider_clo.Base.{◌≡◌}
use cluster_api_provider_clo.Effect.{Fun, ret}
use cluster_api_provider_clo.Effect.Keeps.{Keeps, KeepsFun, At, AtEnd, keeps_rules}
use cluster_api_provider_clo.Api.Cluster.{VcdCluster}
use cluster_api_provider_clo.Api.Machine.{VcdMachine}
use cluster_api_provider_clo.Vcd.Calls.{Call, Trace}
use cluster_api_provider_clo.Vcd.Env.{Store, ask, the_cluster, the_machine, update_cluster}
use cluster_api_provider_clo.Vcd.Env.{update_machine}

pub record OnCluster (P : VcdCluster → Type 0) (s : Store) : Type 0 where
  pub holds : P s.cluster

module _ {R : Type 0} {P : VcdCluster → Type 0} where
  pub OnCluster-ask :
      {A : Type 0} (c : Call) (answer : Trace → A) → Keeps {R = R} (OnCluster P) (ask c answer)
  OnCluster-ask c answer = record { at = λ s h. record { holds = h.holds } }

  pub OnCluster-the_cluster : Keeps {R = R} (OnCluster P) the_cluster
  OnCluster-the_cluster = record { at = λ s h. record { holds = h.holds } }

  pub OnCluster-the_machine : Keeps {R = R} (OnCluster P) the_machine
  OnCluster-the_machine = record { at = λ s h. record { holds = h.holds } }

  pub OnCluster-update_cluster :
      (f : VcdCluster → VcdCluster)
      → ((c : VcdCluster) → P c → P (f c))
      → Keeps {R = R} (OnCluster P) (update_cluster f)
  OnCluster-update_cluster f k = record { at = λ s h. record { holds = k s.cluster h.holds } }

  pub OnCluster-update_machine :
      (f : VcdMachine → VcdMachine) → Keeps {R = R} (OnCluster P) (update_machine f)
  OnCluster-update_machine f = record { at = λ s h. record { holds = h.holds } }

pub ruleset on_cluster_rules = (
  keeps_rules, OnCluster-ask, OnCluster-the_cluster, OnCluster-the_machine,
  OnCluster-update_cluster, OnCluster-update_machine,
)

module _ {R : Type 0} {P : VcdCluster → Type 0} {f : Fun Store R} where
  pub on_cluster_after :
      KeepsFun (OnCluster P) f → (s t : Store) (r : R) → f s ≡ ret r t → P s.cluster → P t.cluster
  on_cluster_after k s t r e h =
      let kept : AtEnd (OnCluster P) (f s) = k.at s (record { holds = h }) in (rw e at kept).holds

pub record OnMachine (P : VcdMachine → Type 0) (s : Store) : Type 0 where
  pub holds : P s.machine

module _ {R : Type 0} {P : VcdMachine → Type 0} where
  pub OnMachine-ask :
      {A : Type 0} (c : Call) (answer : Trace → A) → Keeps {R = R} (OnMachine P) (ask c answer)
  OnMachine-ask c answer = record { at = λ s h. record { holds = h.holds } }

  pub OnMachine-the_cluster : Keeps {R = R} (OnMachine P) the_cluster
  OnMachine-the_cluster = record { at = λ s h. record { holds = h.holds } }

  pub OnMachine-the_machine : Keeps {R = R} (OnMachine P) the_machine
  OnMachine-the_machine = record { at = λ s h. record { holds = h.holds } }

  pub OnMachine-update_cluster :
      (f : VcdCluster → VcdCluster) → Keeps {R = R} (OnMachine P) (update_cluster f)
  OnMachine-update_cluster f = record { at = λ s h. record { holds = h.holds } }

  pub OnMachine-update_machine :
      (f : VcdMachine → VcdMachine)
      → ((m : VcdMachine) → P m → P (f m))
      → Keeps {R = R} (OnMachine P) (update_machine f)
  OnMachine-update_machine f k = record { at = λ s h. record { holds = k s.machine h.holds } }

pub ruleset on_machine_rules = (
  keeps_rules, OnMachine-ask, OnMachine-the_cluster, OnMachine-the_machine,
  OnMachine-update_cluster, OnMachine-update_machine,
)

module _ {R : Type 0} {P : VcdMachine → Type 0} {f : Fun Store R} where
  pub on_machine_after :
      KeepsFun (OnMachine P) f → (s t : Store) (r : R) → f s ≡ ret r t → P s.machine → P t.machine
  on_machine_after k s t r e h =
      let kept : AtEnd (OnMachine P) (f s) = k.at s (record { holds = h }) in (rw e at kept).holds
