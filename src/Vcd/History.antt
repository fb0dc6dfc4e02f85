-- ===== src/Vcd/History.antt =====
-- What has happened in a trace, with its answer, and that nothing makes it unhappen.
use cluster_api_provider_clo.Base.{Bool, true, false, [], ◌∷◌, ◌||◌, ◌≡◌, arith}
use cluster_api_provider_clo.Effect.{Fun, ret}
use cluster_api_provider_clo.Effect.Keeps.{Keeps, KeepsFun, At, AtEnd, keeps_rules}
use cluster_api_provider_clo.Vcd.Calls.{Call, Trace}
use cluster_api_provider_clo.Vcd.Env.{Store, ask, the_cluster, the_machine}
use cluster_api_provider_clo.Vcd.Env.{update_cluster, update_machine}
use cluster_api_provider_clo.Api.Cluster.{VcdCluster}
use cluster_api_provider_clo.Api.Machine.{VcdMachine}

-- Some call of the trace, with what was called before it, passes the test.
abbrev pub happened : (Trace → Bool) → Trace → Bool
happened test [] = false
happened test (c ∷ before) = test (c ∷ before) || happened test before

pub record Past (test : Trace → Bool) (s : Store) : Type 0 where
  pub holds : happened test s.trace ≡ true

module _ {R A : Type 0} {test : Trace → Bool} where
  pub Keeps-ask : (c : Call) (answer : Trace → A) → Keeps {R = R} (Past test) (ask c answer)
  Keeps-ask c answer = record { at = λ s h. ground arith }

module _ {R : Type 0} {test : Trace → Bool} where
  pub Keeps-the_cluster : Keeps {R = R} (Past test) the_cluster
  Keeps-the_cluster = record { at = λ s h. record { holds = h.holds } }

  pub Keeps-the_machine : Keeps {R = R} (Past test) the_machine
  Keeps-the_machine = record { at = λ s h. h }

  pub Keeps-update_cluster :
      (f : VcdCluster → VcdCluster) → Keeps {R = R} (Past test) (update_cluster f)
  Keeps-update_cluster f = record { at = λ s h. record { holds = h.holds } }

  pub Keeps-update_machine :
      (f : VcdMachine → VcdMachine) → Keeps {R = R} (Past test) (update_machine f)
  Keeps-update_machine f = record { at = λ s h. record { holds = h.holds } }

pub ruleset past_rules = (
  keeps_rules, Keeps-ask, Keeps-the_cluster, Keeps-the_machine, Keeps-update_cluster,
  Keeps-update_machine,
)

module _ {R : Type 0} {test : Trace → Bool} {f : Fun Store R} where
  -- The past, across a call that returns.
  pub happened_after :
      KeepsFun (Past test) f
      → (s t : Store) (r : R) → f s ≡ ret r t
      → happened test s.trace ≡ true
      → happened test t.trace ≡ true
  happened_after k s t r e h =
      let kept : AtEnd (Past test) (f s) = k.at s (record { holds = h }) in (rw e at kept).holds
