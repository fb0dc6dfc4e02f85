-- ===== src/Machine/Disk/Laws.antt =====
-- The size that a disk is given.
use cluster_api_provider_clo.Base.{ℕ, suc, some}
use cluster_api_provider_clo.Base.{List, ◌∷◌, ◌≡◌, arith, ◌<◌, ◌≤◌, ◌*◌}
use cluster_api_provider_clo.Base.{nat_eq}
use cluster_api_provider_clo.Vcd.{DiskSettings}
use cluster_api_provider_clo.Machine.Disk.{mebibyte, mantissa, nearest, round_from, float64}
use cluster_api_provider_clo.Machine.Disk.{disk_size_mb, resized}

nearest-1 : (n : ℕ) → nearest 1 n ≡ n
unfolding nearest
nearest-1 n = ground arith

float64-same : (n : ℕ) → n < mantissa → float64 n ≡ n
unfolding float64 round_from
float64-same n h = grind (arith, nearest-1 n)

-- A disk that is larger, of a size in MB that fits in the bytes that were asked for while one MB
-- more would not.
pub record Grown (bytes : ℕ) (before after : DiskSettings) : Type 0 where
  pub larger : before.size_mb < after.size_mb
  pub fits : after.size_mb * mebibyte ≤ bytes
  pub full : bytes < suc (after.size_mb) * mebibyte
  pub same_disk : after.disk ≡ before.disk

-- The first disk has grown, and the others are as they were.
unfoldable pub FirstGrown : ℕ → List DiskSettings → List DiskSettings → Type 0
FirstGrown bytes (before ∷ rest) (after ∷ others) = Grown bytes before after × (others ≡ rest)
FirstGrown bytes before after = ⊥

-- For a size of less than 2 ^ 53 bytes: where reconcileVM resizes, the first disk becomes larger,
-- to the number of whole MB in the size, and stays the same disk; the other disks are unchanged.
pub resized-grown :
    (bytes : ℕ) (disks new : List DiskSettings)
    → bytes < mantissa
    → resized (disk_size_mb bytes) disks ≡ some new
    → FirstGrown bytes disks new
unfolding resized disk_size_mb FirstGrown
resized-grown bytes disks new small e = grind (arith, float64-same bytes)
