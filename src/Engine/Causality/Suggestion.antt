-- ===== src/Engine/Causality/Suggestion.antt =====
-- internal/engine/causality.go, `Evaluate`: which service it suggests.
use mathlib.Core.List.{Mem, mem-cons_self, mem-cons_of_mem}
use mirador_rca.Prelude.{
  ◌≡◌, refl, ◌⊎◌, true, false, String, List, [], ◌∷◌, ◌==◌, str_eq, arith, Bool-cases, inl, inr,
}
use mirador_rca.Prelude.Text.{equal_fold}
use mirador_rca.Double.{Double}
use mirador_rca.Model.{before, is_zero, TimelineEvent, ServiceGraphEdge}
use mirador_rca.Engine.Causality.{
  CausalityResult, Tally, tally_silent, tally_timed, tally_edge, tally_edges, conclude, evaluate,
  first_event_time, reference_time, suggested_edge_set, empty_tally,
}

module _ {F : Type 0} ⦃d : Double F⦄ (root : String) (timeline : List (TimelineEvent F)) where
  -- An edge into the root service whose source stands out: its first event comes before the root's,
  -- or it has no event and a positive error rate.
  pub record Supports (edge : ServiceGraphEdge F) : Type 0 where
    pub upstream : equal_fold edge.target root ≡ true
    pub evidence :
        ((is_zero (first_event_time edge.source timeline) ≡ true)
          × (d.lt (d.lit 0 0) edge.error_rate ≡ true))
        ⊎ ((is_zero (first_event_time edge.source timeline) ≡ false)
            × (before (first_event_time edge.source timeline) (reference_time root timeline)
                ≡ true))

  -- The suggestion of a tally over some of the edges `all`.
  abbrev IsBacked : List (ServiceGraphEdge F) → Tally F → Type 0
  IsBacked all t =
      (suggested_edge_set t.suggested ≡ false) ⊎ (Mem t.suggested all × Supports t.suggested)

  tally_edge-IsBacked :
      (all : List (ServiceGraphEdge F)) (e : ServiceGraphEdge F) (t : Tally F)
      → Mem e all
      → IsBacked all t
      → IsBacked all (tally_edge root timeline (reference_time root timeline) e t)
  unfolding tally_edge tally_silent tally_timed
  tally_edge-IsBacked all e t m b = ground arith

  tally_edges-IsBacked :
      (all : List (ServiceGraphEdge F)) (es : List (ServiceGraphEdge F)) (t : Tally F)
      → ((e : ServiceGraphEdge F) → Mem e es → Mem e all)
      → IsBacked all t
      → IsBacked all (tally_edges root timeline (reference_time root timeline) es t)
  unfolding tally_edges
  tally_edges-IsBacked all [] t sub b = b
  tally_edges-IsBacked all (e ∷ es) t sub b =
      tally_edges-IsBacked all es _ (λ x m. sub x (mem-cons_of_mem e m))
        (tally_edge-IsBacked all e t (sub e mem-cons_self) b)

  abbrev pub Suggests : List (ServiceGraphEdge F) → CausalityResult F → Type 0
  Suggests edges result =
      (result.suggested_service ≡ "")
      ⊎ ((edge : ServiceGraphEdge F) × Mem edge edges
          × Supports edge
          × (result.suggested_service ≡ edge.source))

  conclude-Suggests :
      (edges : List (ServiceGraphEdge F)) (t : Tally F)
      → IsBacked edges t
      → Suggests edges (conclude t)
  unfolding conclude
  conclude-Suggests edges t b = elim (Bool-cases (t.total_upstream == 0)) [
    | inl none ↦ inl (rw none)
    | inr some ↦ elim (Bool-cases (suggested_edge_set t.suggested)) [
      | inl backed ↦ elim b [
        | inl unset ↦ cc
        | inr (m, s) ↦ inr (t.suggested, m, s, rw (some, backed))
      ]
      | inr unset ↦ inl (rw (some, unset))
    ]
  ]

module _ {F : Type 0} ⦃d : Double F⦄ where
  -- If `Evaluate` suggests a service, it is the source of an edge of the service graph that points at
  -- the root service (up to case) and supports it: the source's first event comes before the time of
  -- the root's, or the source has no event and the edge's error rate is positive.
  pub evaluate_suggestion :
      (root : String) (timeline : List (TimelineEvent F)) (edges : List (ServiceGraphEdge F))
      → Suggests root timeline edges (evaluate root timeline edges)
  unfolding evaluate suggested_edge_set
  evaluate_suggestion root [] edges = inl refl
  evaluate_suggestion root (x ∷ xs) [] = inl refl
  evaluate_suggestion root (x ∷ xs) (e ∷ es) = elim (Bool-cases (str_eq root "")) [
    | inl none ↦ inl (rw none)
    | inr some ↦ rw some (
        conclude-Suggests root (x ∷ xs) (e ∷ es) _
          (tally_edges-IsBacked root (x ∷ xs) (e ∷ es) (e ∷ es) empty_tally (λ y m. m) (inl refl)))
  ]
