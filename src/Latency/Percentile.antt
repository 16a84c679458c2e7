-- ===== src/Latency/Percentile.antt =====
-- internal/utils/latency.go, `Percentile`: total, and always one of the samples.
use mathlib.Core.List.{Mem, mem-cons_self, mem-cons_of_mem}
use mathlib.Core.List.Perm
use mirador_rca.Prelude.{
  ℕ, zero, suc, ◌<◌, ◌≡◌, ◌≢◌, refl, Bool, true, false, some, List, [], ◌∷◌, length, length-perm,
  get_elem?, arith, Bool-cases, inl, inr, All, if◌then◌else◌,
}
use mirador_rca.Prelude.Int.{ℤ, ◌≤ℤ◌, ltb_ℤ}
use mirador_rca.Double.{Double}
use mirador_rca.Runtime.{Runtime, IsRuntime}
use mirador_rca.Latency.{
  LatencyTracker, percentile, percentile_of, raw_index, clamp_index, min_from, max_from, min_sample,
  max_sample,
}

min_from-le : (m : ℤ) (l : List ℤ) → (min_from m l ≤ℤ m) × All (λ s. min_from m l ≤ℤ s) l
unfolding min_from
min_from-le m [] = (omega arith, tt)
min_from-le m (s ∷ l) =
    let n = if ltb_ℤ s m then s else m in
    let below : (n ≤ℤ m) × (n ≤ℤ s) = ground arith in
    let (head, rest) = min_from-le n l in (omega arith, (omega arith, rest))

max_from-ge : (m : ℤ) (l : List ℤ) → (m ≤ℤ max_from m l) × All (λ s. s ≤ℤ max_from m l) l
unfolding max_from
max_from-ge m [] = (omega arith, tt)
max_from-ge m (s ∷ l) =
    let n = if ltb_ℤ m s then s else m in
    let above : (m ≤ℤ n) × (s ≤ℤ n) = ground arith in
    let (head, rest) = max_from-ge n l in (omega arith, (omega arith, rest))

mem-of_choice :
    (b : Bool) {v m s : ℤ} {l : List ℤ} → Mem v ((if b then s else m) ∷ l) → Mem v (m ∷ s ∷ l)
mem-of_choice true h = mem-cons_of_mem _ h
mem-of_choice false {v} {m} {s} {l} h = (Perm.mem_iff (Perm.swap m s l)).0 (mem-cons_of_mem s h)

min_from-mem : (m : ℤ) (l : List ℤ) → Mem (min_from m l) (m ∷ l)
unfolding min_from
min_from-mem m [] = mem-cons_self
min_from-mem m (s ∷ l) = mem-of_choice (ltb_ℤ s m) (min_from-mem (if ltb_ℤ s m then s else m) l)

max_from-mem : (m : ℤ) (l : List ℤ) → Mem (max_from m l) (m ∷ l)
unfolding max_from
max_from-mem m [] = mem-cons_self
max_from-mem m (s ∷ l) = mem-of_choice (ltb_ℤ m s) (max_from-mem (if ltb_ℤ m s then s else m) l)

get_elem?-mem : (l : List ℤ) (i : ℕ) → i < length l → (v : ℤ) × (get_elem? l i ≡ some v) × Mem v l
get_elem?-mem [] i h = absurd (omega arith)
get_elem?-mem (x ∷ xs) zero h = (x, refl, mem-cons_self)
get_elem?-mem (x ∷ xs) (suc i) h =
    let (v, e, m) = get_elem?-mem xs i (omega arith) in (v, e, mem-cons_of_mem x m)

-- The two tests bring every index into the range.
clamp_index-lt : (i : ℤ) (n : ℕ) → 0 < n → clamp_index i n < n
unfolding clamp_index
clamp_index-lt i n h = ground arith

module _ {r : Runtime} (laws : IsRuntime r) {F : Type 0} ⦃d : Double F⦄ where
  -- What `Percentile` answers for `p` over the samples `l`.
  pub record IsPercentile (p : F) (l : List ℤ) (v : ℤ) : Type 0 where
    pub member : Mem v l
    pub lowest : d.le p (d.lit 0 0) ≡ true → All (λ s. v ≤ℤ s) l
    pub highest : d.le p (d.lit 0 0) ≡ false → d.le (d.lit 100 0) p ≡ true → All (λ s. s ≤ℤ v) l

  percentile_of_total :
      (l : List ℤ) (p : F) → l ≢ [] → (v : ℤ) × (percentile_of r l p ≡ some v) × IsPercentile p l v
  unfolding percentile_of min_sample max_sample
  percentile_of_total [] p h = absurd (h refl)
  percentile_of_total (s ∷ rest) p h = elim (Bool-cases (d.le p (d.lit 0 0))) [
    | inl low ↦ (
      min_from s rest,
      ground arith,
      record { member = min_from-mem s rest; lowest = λ _. min_from-le s rest; highest = λ e. cc },
    )
    | inr not_low ↦ elim (Bool-cases (d.le (d.lit 100 0) p)) [
      | inl high ↦ (
        max_from s rest,
        ground arith,
        record {
          member = max_from-mem s rest;
          lowest = λ e. cc;
          highest = λ _ _. max_from-ge s rest;
        },
      )
      | inr between ↦
          let sorted = r.sort_slice (λ a b. ltb_ℤ a b) (s ∷ rest) in
          let perm = laws.sort_slice-perm (λ a b. ltb_ℤ a b) (s ∷ rest) in
          let size : length sorted ≡ suc (length rest) = length-perm perm in
          let (v, e, m) =
            get_elem?-mem sorted (clamp_index (raw_index p (length sorted)) (length sorted))
              (clamp_index-lt _ _ (omega arith)) in
          (
            v,
            rw (not_low, between) e,
            record { member = (Perm.mem_iff perm).0 m; lowest = λ e. cc; highest = λ _ e. cc },
          )
    ]
  ]

  -- On a tracker with samples, `Percentile` never indexes out of range, whatever `p` is, NaN and
  -- infinities included: it answers one of the samples, the least one where p <= 0 and the greatest
  -- one where p >= 100.
  pub percentile_total :
      (t : LatencyTracker) (p : F)
      → t.samples ≢ []
      → (v : ℤ) × (percentile r t p ≡ some v) × IsPercentile p t.samples v
  unfolding percentile
  percentile_total t p h = percentile_of_total t.samples p h
