-- ===== src/Engine/Topology/Neighbors.antt =====
-- internal/engine/pipeline.go, `neighborServices`: the services at the other end of an edge.
use mathlib.Core.Logic.{∥∥₁_map}
use mathlib.Core.List.{Mem, Nodup}
use mathlib.Core.List.Perm
use mirador_rca.Prelude.{
  Bool, true, false, ◌||◌, ◌&&◌, ◌≡◌, ◌↔◌, ◌⊎◌, sym, String, List, [], ◌∷◌, str_eq, str_eq_iff, any,
  any_iff, arith, ◌∙◌, Bool-cases, inl, inr, if◌then◌else◌,
}
use mirador_rca.Runtime.{Runtime, IsRuntime}
use mirador_rca.Model.{ServiceGraphEdge}
use mirador_rca.Engine.Strings.{in_set}
use mirador_rca.Engine.Strings.Unique.{
  in_set_iff, in_set-append, IsDistinct, IsDistinct-append, IsDistinct→Nodup,
}
use mirador_rca.Engine.Topology.{put, put_neighbors, neighbor_set, neighbor_services}

in_set-put :
    (x y : String) (set : List String) → in_set x (put y set) ≡ (in_set x set || str_eq x y)
unfolding put in_set
in_set-put x y set = ground (arith, in_set-append x set (y ∷ []), str_eq_iff x y)

put-IsDistinct : (y : String) (set : List String) → IsDistinct set → IsDistinct (put y set)
unfolding put
put-IsDistinct y set h = elim (Bool-cases (in_set y set)) [
  | inl old ↦ rw old h
  | inr new ↦ rw new (IsDistinct-append set y h new)
]

put_if-IsDistinct :
    (b : Bool) (y : String) (set : List String)
    → IsDistinct set
    → IsDistinct (if b then put y set else set)
put_if-IsDistinct true y set h = put-IsDistinct y set h
put_if-IsDistinct false y set h = h

module _ {F : Type 0} (service : String) where
  -- `x` is at the other end of the edge.
  abbrev joins : String → ServiceGraphEdge F → Bool
  joins x e =
      (str_eq e.source service && str_eq x e.target)
      || (str_eq e.target service && str_eq x e.source)

  in_set-put_neighbors :
      (x : String) (e : ServiceGraphEdge F) (set : List String)
      → in_set x (put_neighbors service e set) ≡ (in_set x set || joins x e)
  unfolding put_neighbors
  in_set-put_neighbors x e set = ground (
    arith,
    in_set-put x e.target set,
    in_set-put x e.source set,
    in_set-put x e.source (put e.target set),
  )

  put_neighbors-IsDistinct :
      (e : ServiceGraphEdge F) (set : List String)
      → IsDistinct set
      → IsDistinct (put_neighbors service e set)
  unfolding put_neighbors
  put_neighbors-IsDistinct e set h =
      put_if-IsDistinct (str_eq e.target service) e.source _
        (put_if-IsDistinct (str_eq e.source service) e.target set h)

  in_set-neighbor_set :
      (x : String) (edges : List (ServiceGraphEdge F)) (set : List String)
      → in_set x (neighbor_set service edges set) ≡ (in_set x set || any (joins x) edges)
  unfolding neighbor_set any
  in_set-neighbor_set x [] set = ground arith
  in_set-neighbor_set x (e ∷ es) set =
      ground (
        arith,
        in_set-put_neighbors x e set,
        in_set-neighbor_set x es (put_neighbors service e set),
      )

  neighbor_set-IsDistinct :
      (edges : List (ServiceGraphEdge F)) (set : List String)
      → IsDistinct set
      → IsDistinct (neighbor_set service edges set)
  unfolding neighbor_set
  neighbor_set-IsDistinct [] set h = h
  neighbor_set-IsDistinct (e ∷ es) set h =
      neighbor_set-IsDistinct es (put_neighbors service e set) (put_neighbors-IsDistinct e set h)

  -- `x` is at the other end of an edge of the graph that has the service at one end.
  abbrev pub IsNeighbor : List (ServiceGraphEdge F) → String → Type 0
  IsNeighbor edges x = ∥ (
      (e : ServiceGraphEdge F) × Mem e edges
      × (((e.source ≡ service) × (x ≡ e.target)) ⊎ ((e.target ≡ service) × (x ≡ e.source)))) ∥₁

  joins_iff :
      (x : String) (e : ServiceGraphEdge F)
      → (joins x e ≡ true)
        ↔ (((e.source ≡ service) × (x ≡ e.target)) ⊎ ((e.target ≡ service) × (x ≡ e.source)))
  joins_iff x e =
      let same = str_eq_iff e.source service in
      let same' = str_eq_iff e.target service in
      let far = str_eq_iff x e.target in
      let far' = str_eq_iff x e.source in (λ h. ground arith, λ h. ground arith)

  -- The neighbours are the services at the other end of an edge, each once, in whatever order the
  -- runtime ranges over the set.
  pub neighbor_services_lem :
      {r : Runtime} (laws : IsRuntime r) (edges : List (ServiceGraphEdge F))
      → ((x : String) → Mem x (neighbor_services r edges service) ↔ IsNeighbor edges x)
        × Nodup (neighbor_services r edges service)
  unfolding neighbor_services in_set
  neighbor_services_lem laws edges =
      let set = neighbor_set service edges [] in
      let order = laws.map_order-perm set in
      (
        λ x.
            let found = in_set-neighbor_set x edges [] in
            (
              λ m.
                  let inside : in_set x set ≡ true =
                    (in_set_iff x set).1 ((Perm.mem_iff order).0 m) in
                  ∥∥₁_map ((any_iff (joins x) edges).0 (sym found ∙ inside))
                    λ (e, k, h). (e, k, (joins_iff x e).0 h),
              λ t. (Perm.mem_iff order).1 (
                  (in_set_iff x set).0 (
                    found
                    ∙ (any_iff (joins x) edges).1
                        (∥∥₁_map t λ (e, k, h). (e, k, (joins_iff x e).1 h)))),
            ),
        Perm.nodup (Perm.symm order) (IsDistinct→Nodup set (neighbor_set-IsDistinct edges [] tt)),
      )
