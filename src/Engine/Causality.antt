-- ===== src/Engine/Causality.antt =====
-- internal/engine/causality.go: the score and the suggestion from the service graph.
pub mod Score
pub mod Suggestion
use mirador_rca.Prelude.{
  ℕ, zero, suc, ◌+◌, Bool, true, false, not, ◌||◌, String, List, [], ◌∷◌, ◌++◌, str_eq, ◌==◌,
  if◌then◌else◌,
}
use mirador_rca.Prelude.Int.{pos}
use mirador_rca.Prelude.Text.{equal_fold, ◌<>◌}
use mirador_rca.Double.{Double}
use mirador_rca.Model.{Time, zero_time, is_zero, before, TimelineEvent, ServiceGraphEdge}
use mirador_rca.Engine.Clamp.{clamp}

pub record CausalityResult (F : Type 0) : Type 0 where
  pub score : F
  pub notes : List String
  pub suggested_service : String

-- `rootEventTime` and `firstEventTime`, which have one body.
unfoldable pub first_event_time : {F : Type 0} → String → List (TimelineEvent F) → Time
first_event_time service [] = zero_time
first_event_time service (e ∷ es) =
    if equal_fold e.service service then e.time else first_event_time service es

unfoldable pub root_event_time : {F : Type 0} → String → List (TimelineEvent F) → Time
root_event_time service events = first_event_time service events

pub suggested_edge_set : {F : Type 0} → ServiceGraphEdge F → Bool
suggested_edge_set edge = not (str_eq edge.source "") || not (str_eq edge.target "")

-- The variables of the loop over the edges.
pub record Tally (F : Type 0) : Type 0 where
  pub total_upstream : ℕ
  pub supporting : ℕ
  pub notes : List String
  pub suggested : ServiceGraphEdge F

module _ {F : Type 0} ⦃d : Double F⦄ where
  open d use {add, mul, div, lit, lt, of_int}

  -- The zero value of an edge.
  abbrev pub no_edge : ServiceGraphEdge F
  no_edge = record { source = ""; target = ""; call_rate = lit 0 0; error_rate = lit 0 0 }

  -- An upstream edge whose source has no event counts for its error rate.
  pub tally_silent : String → ServiceGraphEdge F → Tally F → Tally F
  tally_silent root edge t =
      if lt (lit 0 0) edge.error_rate
      then record t {
        supporting = t.supporting + 1;
        notes = t.notes ++ (edge.source <> " error rate influencing " <> root) ∷ [];
        suggested =
            if not (suggested_edge_set t.suggested) || lt t.suggested.error_rate edge.error_rate
            then edge
            else t.suggested;
      }
      else t

  -- An upstream edge whose source has an event counts if that event comes first.
  pub tally_timed : String → Time → Time → ServiceGraphEdge F → Tally F → Tally F
  tally_timed root root_time src_time edge t =
      if before src_time root_time
      then record t {
        supporting = t.supporting + 1;
        notes = t.notes ++ (edge.source <> " precedes " <> root) ∷ [];
        suggested =
            if not (suggested_edge_set t.suggested) || lt t.suggested.call_rate edge.call_rate
            then edge
            else t.suggested;
      }
      else record t { notes = t.notes ++ (edge.source <> " occurs after root cause") ∷ [] }

  -- One round of the loop.
  pub tally_edge : String → List (TimelineEvent F) → Time → ServiceGraphEdge F → Tally F → Tally F
  tally_edge root timeline root_time edge t =
      if not (equal_fold edge.target root)
      then t
      else let counted = record t { total_upstream = t.total_upstream + 1 } in
        let src_time = first_event_time edge.source timeline in
        if is_zero src_time
        then tally_silent root edge counted
        else tally_timed root root_time src_time edge counted

  pub tally_edges :
      String → List (TimelineEvent F) → Time → List (ServiceGraphEdge F) → Tally F → Tally F
  tally_edges root timeline root_time [] t = t
  tally_edges root timeline root_time (e ∷ es) t =
      tally_edges root timeline root_time es (tally_edge root timeline root_time e t)

  -- The time that upstream events are held against.
  unfoldable pub reference_time : String → List (TimelineEvent F) → Time
  reference_time root [] = zero_time
  reference_time root (e ∷ es) =
      let root_time = root_event_time root (e ∷ es) in
      if is_zero root_time then e.time else root_time

  -- What follows the loop.
  pub conclude : Tally F → CausalityResult F
  conclude t =
      if t.total_upstream == 0
      then record { score = lit 0 0; notes = t.notes; suggested_service = "" }
      else let ratio = div (of_int (pos t.supporting)) (of_int (pos t.total_upstream)) in
        let low = if lt ratio (lit 0 0) then lit 0 0 else ratio in
        let score = if lt (lit 1 0) low then lit 1 0 else low in
        record {
          score = clamp (add (lit 4 1) (mul (lit 6 1) score)) (lit 0 0) (lit 1 0);
          notes = t.notes;
          suggested_service = if suggested_edge_set t.suggested then t.suggested.source else "";
        }

  abbrev pub empty_tally : Tally F
  empty_tally = record { total_upstream = 0; supporting = 0; notes = []; suggested = no_edge }

  abbrev pub no_result : CausalityResult F
  no_result = record { score = lit 0 0; notes = []; suggested_service = "" }

  -- `Evaluate`
  pub evaluate : String → List (TimelineEvent F) → List (ServiceGraphEdge F) → CausalityResult F
  evaluate root [] edges = no_result
  evaluate root (x ∷ xs) [] = no_result
  evaluate root (x ∷ xs) (e ∷ es) =
      let root_time = reference_time root (x ∷ xs) in
      if str_eq root ""
      then no_result
      else conclude (tally_edges root (x ∷ xs) root_time (e ∷ es) empty_tally)
