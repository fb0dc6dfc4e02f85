-- ===== src/Machine/Pool/Joined.antt =====
-- The pool after reconcileLBPool.
use cluster_api_provider_clo.Base.{String, Bool, true, false, none}
use cluster_api_provider_clo.Base.{List, [], ◌∷◌, ◌++◌, ◌≡◌, refl, arith, is_none}
use cluster_api_provider_clo.Base.{string_eq, ◌&&◌, ◌||◌, contains}
use cluster_api_provider_clo.Effect.{ret}
use cluster_api_provider_clo.Api.Machine.{OwnerMachine}
use cluster_api_provider_clo.Vcd.Calls.{Trace, update_load_balancer, remove_error}
use cluster_api_provider_clo.Vcd.Calls.{get_load_balancer_pool_member_ips}
use cluster_api_provider_clo.Vcd.Env.{Env, Store}
use cluster_api_provider_clo.Vcd.History.{happened}
use cluster_api_provider_clo.Machine.Pool.{reconcile_lb_pool}

-- Every item of the first list is in the second.
pub all_in : List String → List String → Bool
all_in [] ys = true
all_in (x ∷ xs) ys = contains ys x && all_in xs ys

contains-append :
    (xs ys : List String) (a : String) → contains (xs ++ ys) a ≡ (contains xs a || contains ys a)
contains-append [] ys a = refl
contains-append (x ∷ xs) ys a = ground (arith, contains-append xs ys a)

all_in-weaken :
    (xs ys zs : List String)
    → ((a : String) → contains ys a ≡ true → contains zs a ≡ true)
    → all_in xs ys ≡ true
    → all_in xs zs ≡ true
unfolding all_in
all_in-weaken [] ys zs k h = refl
all_in-weaken (x ∷ xs) ys zs k h = grind (arith, k x, all_in-weaken xs ys zs k)

all_in_self : (xs : List String) → all_in xs xs ≡ true
unfolding all_in
all_in_self [] = refl
all_in_self (x ∷ xs) =
    grind (arith, all_in-weaken xs xs (x ∷ xs) (λ a h. ground arith), all_in_self xs)

module _ (env : Env) where
  -- The pool was updated without an error, with the address and with all members that were read
  -- before.
  pub pool_joined : String → Trace → Bool
  pool_joined address
        (update_load_balancer p v ips port one shared
          ∷ remove_error e i n
          ∷ get_load_balancer_pool_member_ips pool
          ∷ before) =
      let members = (env.texts_reply (get_load_balancer_pool_member_ips pool ∷ before)).0 in
      is_none (
        env.error_reply (
          update_load_balancer p v ips port one shared
          ∷ remove_error e i n
          ∷ get_load_balancer_pool_member_ips pool
          ∷ before))
      && (contains ips address && all_in members ips)
  pool_joined address _ = false

  has_address :
      (ips : List String) (address : String)
      → contains (env.unique (ips ++ address ∷ [])) address ≡ true
  has_address ips address = grind (
    arith,
    env.contains-unique (ips ++ address ∷ []) address,
    contains-append ips (address ∷ []) address,
  )

  has_members :
      (ips : List String) (address : String) → all_in ips (env.unique (ips ++ address ∷ [])) ≡ true
  has_members ips address =
      let kept : (a : String)
          → contains ips a ≡ true
          → contains (env.unique (ips ++ address ∷ [])) a ≡ true =
        λ a h. grind (
          arith,
          env.contains-unique (ips ++ address ∷ []) a,
          contains-append ips (address ∷ []) a,
        ) in
      all_in-weaken ips ips (env.unique (ips ++ address ∷ [])) kept (all_in_self ips)

  -- If reconcileLBPool returns no error, it updated the pool without an error, and the members it
  -- set are the address of the machine and all members that it read just before, at least.
  pub reconcile_lb_pool-joined :
      (owner : OwnerMachine) (address : String) (s t : Store)
      → reconcile_lb_pool env owner address s ≡ ret none t
      → happened (pool_joined address) t.trace ≡ true
  unfolding reconcile_lb_pool pool_joined
  reconcile_lb_pool-joined owner address s t e = grind (arith, has_address, has_members)
