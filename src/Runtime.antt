-- ===== src/Runtime.antt =====
-- What Go leaves open and the program depends on: the order of equal elements after `sort.Slice`,
-- and the order in which a `map` or a set of texts is ranged over. Both are parameters here.
use mathlib.Core.List.{Perm}
use mathlib.Core.List.Perm
use mirador_rca.Prelude.{String, Bool, List, All}
use mirador_rca.Prelude.Sort.{
  IsSorted, IsWeakOrder, sort_stable, sort_stable-perm, sort_stable-IsSorted,
}

pub record Runtime : Type 1 where
  pub sort_slice : {A : Type 0} → (A → A → Bool) → List A → List A
  pub map_order : List String → List String

-- What the documentation promises of them.
pub record IsRuntime (r : Runtime) : Type 1 where
  pub sort_slice-perm :
      {A : Type 0} (less : A → A → Bool) (l : List A) → Perm (r.sort_slice less l) l
  pub sort_slice-IsSorted :
      {A : Type 0} (less : A → A → Bool) (P : A → Type 0) (l : List A)
      → IsWeakOrder less P
      → All P l
      → IsSorted less (r.sort_slice less l)
  pub map_order-perm : (keys : List String) → Perm (r.map_order keys) keys

-- One runtime that keeps the promises: a stable sort, and ranging in the order of insertion.
abbrev pub in_order : Runtime
in_order = record { sort_slice = λ less l. sort_stable less l; map_order = λ keys. keys }

pub in_order-IsRuntime : IsRuntime in_order
in_order-IsRuntime = record {
  sort_slice-perm = λ less l. sort_stable-perm less l;
  sort_slice-IsSorted = λ less P l order ps. sort_stable-IsSorted less order l ps;
  map_order-perm = λ keys. Perm.rfl;
}
