-- ===== src/Machine/Disk.antt =====
-- The part of reconcileVM that resizes the first disk of the VM.
pub mod Laws
use cluster_api_provider_clo.Base.{String, ℕ, zero, suc, Bool, true, false, Option, none, some}
use cluster_api_provider_clo.Base.{List, [], ◌∷◌, is_some, ◌==◌, nat_eq, if◌then◌else◌, ltb}
use cluster_api_provider_clo.Base.{◌+◌, ◌-◌, ◌*◌, ◌/◌, not}
use cluster_api_provider_clo.Effect.{Body, Fun, ◌>>=◌, ◌>>◌, leave, pure, crash, run, when, if_nil}
use cluster_api_provider_clo.Effect.{exit, next, panic, ret, panicked}
use cluster_api_provider_clo.Api.{Err, message}
use cluster_api_provider_clo.Api.Machine.{OwnerMachine}
use cluster_api_provider_clo.Vcd.{Vm, DiskSettings}
use cluster_api_provider_clo.Vcd.Calls.{update_internal_disks}
use cluster_api_provider_clo.Vcd.Env.{Env, Store, ask, the_machine}
use cluster_api_provider_clo.Rde.Sets.{report_error, clear_error}

abbrev pub mebibyte : ℕ
mebibyte = 1048576

-- 2 ^ 53
abbrev pub mantissa : ℕ
mantissa = 9007199254740992

-- The multiple of the unit that is nearest, the even one of two.
unfoldable pub nearest : ℕ → ℕ → ℕ
nearest zero n = n
nearest (suc u) n =
    let q = n / suc u in
    let r = n - q * suc u in
    if ltb (2 * r) (suc u)
    then q * suc u
    else (if ltb (suc u) (2 * r)
        then suc q * suc u
        else (if (q / 2) * 2 == q then q * suc u else suc q * suc u))

-- A number below 2 ^ 63 in 53 bits: the unit is doubled ten times at most.
unfoldable pub round_from : ℕ → ℕ → ℕ → ℕ
round_from zero unit n = nearest unit n
round_from (suc doublings) unit n =
    let coarser = round_from doublings (2 * unit) n in
    if ltb (n / unit) mantissa then nearest unit n else coarser

-- The conversion of an int64 to a float64.
unfoldable pub float64 : ℕ → ℕ
float64 n = round_from 10 1 n

-- int64(math.Floor(float64(diskSize) / float64(Mebibyte))), a division without rounding.
unfoldable pub disk_size_mb : ℕ → ℕ
disk_size_mb bytes = float64 bytes / mebibyte

-- The disks after the assignment, if the first disk is smaller than the size in MB.
unfoldable pub resized : ℕ → List DiskSettings → Option (List DiskSettings)
resized size [] = none
resized size (d ∷ rest) =
    if ltb d.size_mb size then some (record d { size_mb = size } ∷ rest) else none

abbrev with_disks : Vm → Option (List DiskSettings) → Vm
with_disks vm none = vm
with_disks vm (some disks) = record vm { disk_settings = some disks }

module _ (env : Env) (owner : OwnerMachine) where
  -- The VM with its disks afterwards.
  unfoldable pub resize_disk : Vm → Fun Store (Vm × Option Err)
  resize_disk vm = run do
    m ← the_machine
    when (m.spec.disk_size == 0) (leave (vm, none))
    if_nil (env.as_int64 m.spec.disk_size)
        (do
          report_error env "VCDMachineCreationError" "" owner.name
          leave (vm, some (message "failed to parse disk size quantity")))
        λ bytes. if_nil (vm.disk_settings) crash λ disks. do
          let after = with_disks vm (resized (disk_size_mb bytes) disks)
          if_nil (resized (disk_size_mb bytes) disks) (pure tt) λ new. do
            err ← ask (update_internal_disks vm.id new) env.error_reply
            when (is_some err) do
              report_error env "VCDMachineCreationError" "" owner.name
              leave (after, env.wrapf err "failed to resize hard disk")
          _ ← clear_error env "VCDMachineCreationError" "" ""
          pure (after, none)
