-- ===== src/Latency.antt =====
-- internal/utils/latency.go: the tracker of recent investigation latencies. A duration is a whole
-- number of nanoseconds. The mutex makes each method one step, so a method is a function.
pub mod Window
pub mod Percentile
use mirador_rca.Prelude.{
  ℕ, suc, ◌+◌, ◌-◌, Bool, Option, none, some, List, [], ◌∷◌, ◌++◌, length, take, drop, get_elem?,
  ltb, leb, if◌then◌else◌,
}
use mirador_rca.Prelude.Int.{ℤ, pos, negsuc, ltb_ℤ, leb_ℤ}
use mirador_rca.Runtime.{Runtime}
use mirador_rca.Double.{Double}

pub record LatencyTracker : Type 0 where
  pub samples : List ℤ
  pub max_size : ℕ

-- `NewLatencyTracker`
abbrev pub default_size : ℕ
default_size = 512

unfoldable pub new_latency_tracker : ℤ → LatencyTracker
new_latency_tracker (pos (suc n)) = record { samples = []; max_size = suc n }
new_latency_tracker _ = record { samples = []; max_size = default_size }

-- `copy(s[0:], s[1:])`: every element moves one place down, and the last one stays where it was too.
pub copy_down : List ℤ → List ℤ
copy_down [] = []
copy_down (x ∷ []) = x ∷ []
copy_down (x ∷ y ∷ l) = y ∷ copy_down (y ∷ l)

pub observe : LatencyTracker → ℤ → LatencyTracker
unfolding copy_down
observe l d =
    let samples' = l.samples ++ d ∷ [] in
    if ltb l.max_size (length samples')
    then record l { samples = take l.max_size (copy_down samples') }
    else record l { samples = samples' }

unfoldable pub count : LatencyTracker → ℕ
count l = length l.samples

-- The loops of `min` and `max`, over what follows the first sample.
pub min_from : ℤ → List ℤ → ℤ
min_from m [] = m
min_from m (s ∷ l) = min_from (if ltb_ℤ s m then s else m) l

unfoldable pub max_from : ℤ → List ℤ → ℤ
max_from m [] = m
max_from m (s ∷ l) = max_from (if ltb_ℤ m s then s else m) l

pub min_sample : List ℤ → ℤ
unfolding min_from
min_sample [] = pos 0
min_sample (s ∷ l) = min_from s l

pub max_sample : List ℤ → ℤ
unfolding max_from
max_sample [] = pos 0
max_sample (s ∷ l) = max_from s l

-- An index, after the two tests that bring it into the range of a list of `n` elements.
unfoldable pub clamp_index : ℤ → ℕ → ℕ
clamp_index (negsuc _) n = 0
clamp_index (pos i) n = if leb n i then n - 1 else i

module _ {F : Type 0} ⦃d : Double F⦄ where
  -- `int((p / 100.0) * float64(n-1))`
  unfoldable pub raw_index : F → ℕ → ℤ
  raw_index p n = d.trunc (d.mul (d.div p (d.lit 100 0)) (d.of_int (pos (n - 1))))

module _ (r : Runtime) {F : Type 0} ⦃d : Double F⦄ where
  -- `Percentile`, of the samples; `none` is an index out of range, a panic.
  pub percentile_of : List ℤ → F → Option ℤ
  percentile_of [] p = some (pos 0)
  percentile_of (s ∷ rest) p =
      if d.le p (d.lit 0 0)
      then some (min_sample (s ∷ rest))
      else if d.le (d.lit 100 0) p
      then some (max_sample (s ∷ rest))
      else let sorted = r.sort_slice (λ a b. ltb_ℤ a b) (s ∷ rest) in
        get_elem? sorted (clamp_index (raw_index p (length sorted)) (length sorted))

  unfoldable pub percentile : LatencyTracker → F → Option ℤ
  percentile l p = percentile_of l.samples p
