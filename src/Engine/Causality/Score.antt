-- ===== src/Engine/Causality/Score.antt =====
-- internal/engine/causality.go, `Evaluate`: the counters of the loop, and the range of the score.
use mirador_rca.Prelude.{
  ◌+◌, ◌≤◌, ◌≡◌, false, String, List, [], ◌∷◌, length, length-append, str_eq, ◌==◌, arith,
  Bool-cases, inl, inr, if◌then◌else◌,
}
use mirador_rca.Prelude.Text.{equal_fold, ◌<>◌}
use mirador_rca.Prelude.Int.{pos}
use mirador_rca.Double.{Double, ◌≼◌, IsDouble}
use mirador_rca.Model.{Time, before, is_zero, TimelineEvent, ServiceGraphEdge}
use mirador_rca.Engine.Clamp.{clamp, clamp_bounds, IsUnit}
use mirador_rca.Engine.Causality.{
  Tally, tally_silent, tally_timed, tally_edge, tally_edges, conclude, evaluate, first_event_time,
}

module _ {F : Type 0} ⦃d : Double F⦄ where
  -- Every supporting edge has a note, and every note an upstream edge.
  pub record IsCounted (t : Tally F) : Type 0 where
    pub supported : t.supporting ≤ length t.notes
    pub noted : length t.notes ≤ t.total_upstream

  abbrev one_more : Tally F → Tally F
  one_more t = record t { total_upstream = t.total_upstream + 1 }

  tally_silent-IsCounted :
      (root : String) (e : ServiceGraphEdge F) (t : Tally F)
      → IsCounted t
      → IsCounted (tally_silent root e (one_more t))
  unfolding tally_silent
  tally_silent-IsCounted root e t c =
      let note = e.source <> " error rate influencing " <> root in
      let grown = length-append t.notes (note ∷ []) in
      elim (Bool-cases (d.lt (d.lit 0 0) e.error_rate)) [
        | inl counts ↦ rw counts (record { supported = omega arith; noted = omega arith })
        | inr silent ↦ rw silent (omega arith)
      ]

  tally_timed-IsCounted :
      (root : String) (root_time src_time : Time) (e : ServiceGraphEdge F) (t : Tally F)
      → IsCounted t
      → IsCounted (tally_timed root root_time src_time e (one_more t))
  unfolding tally_timed
  tally_timed-IsCounted root root_time src_time e t c =
      let early = e.source <> " precedes " <> root in
      let late = e.source <> " occurs after root cause" in
      let grown = length-append t.notes (early ∷ []) in
      let grown' = length-append t.notes (late ∷ []) in
      elim (Bool-cases (before src_time root_time)) [
        | inl first ↦ rw first (record { supported = omega arith; noted = omega arith })
        | inr after ↦ rw after (record { supported = omega arith; noted = omega arith })
      ]

  tally_edge-IsCounted :
      (root : String) (timeline : List (TimelineEvent F)) (root_time : Time)
      (e : ServiceGraphEdge F) (t : Tally F)
      → IsCounted t
      → IsCounted (tally_edge root timeline root_time e t)
  unfolding tally_edge
  tally_edge-IsCounted root timeline root_time e t c =
      let src_time = first_event_time e.source timeline in
      elim (Bool-cases (equal_fold e.target root)) [
        | inl upstream ↦ elim (Bool-cases (is_zero src_time)) [
          | inl none ↦ rw (upstream, none) (tally_silent-IsCounted root e t c)
          | inr some ↦ rw (upstream, some) (tally_timed-IsCounted root root_time src_time e t c)
        ]
        | inr other ↦ rw other c
      ]

  tally_edges-IsCounted :
      (root : String) (timeline : List (TimelineEvent F)) (root_time : Time)
      (es : List (ServiceGraphEdge F)) (t : Tally F)
      → IsCounted t
      → IsCounted (tally_edges root timeline root_time es t)
  unfolding tally_edges
  tally_edges-IsCounted root timeline root_time [] t c = c
  tally_edges-IsCounted root timeline root_time (e ∷ es) t c =
      tally_edges-IsCounted root timeline root_time es (tally_edge root timeline root_time e t)
        (tally_edge-IsCounted root timeline root_time e t c)

  module _ (laws : IsDouble F) where
    open laws use {
      refl_of_le, le_total, lt-eq-not_le, lit_nonneg, zero-le-one, add_nonneg, mul_nonneg,
      ratio_nonneg,
    }

    IsUnit-zero : IsUnit (d.lit 0 0)
    IsUnit-zero = (lit_nonneg 0 0, zero-le-one)

    -- A number that is not negative, cut off at one.
    capped : (x : F) → d.lit 0 0 ≼ x → IsUnit (if d.lt (d.lit 1 0) x then d.lit 1 0 else x)
    capped x h =
        let n = (refl_of_le _ _ h).1 in
        let one = (refl_of_le _ _ zero-le-one).1 in
        ground (arith, zero-le-one, lt-eq-not_le (d.lit 1 0) x one n, le_total x (d.lit 1 0) n one)

    not_lt_zero : (x : F) → d.lit 0 0 ≼ x → d.lt x (d.lit 0 0) ≡ false
    not_lt_zero x h =
        let (zero_number, number) = refl_of_le _ _ h in
        ground (arith, lt-eq-not_le x (d.lit 0 0) number zero_number)

    scaled-IsUnit :
        (s : F)
        → IsUnit s
        → IsUnit (clamp (d.add (d.lit 4 1) (d.mul (d.lit 6 1) s)) (d.lit 0 0) (d.lit 1 0))
    scaled-IsUnit s (low, high) =
        let product = (mul_nonneg s 6 1 low high).1 in
        let sum = add_nonneg (d.lit 4 1) (d.mul (d.lit 6 1) s) (lit_nonneg 4 1) product in
        clamp_bounds laws _ (d.lit 0 0) (d.lit 1 0) (refl_of_le _ _ sum).1 zero-le-one

    conclude-IsUnit : (t : Tally F) → IsUnit (conclude t).score
    unfolding conclude
    conclude-IsUnit t = elim (Bool-cases (t.total_upstream == 0)) [
      | inl none ↦ rw none IsUnit-zero
      | inr some ↦
          let ratio = d.div (d.of_int (pos t.supporting)) (d.of_int (pos t.total_upstream)) in
          let positive = ratio_nonneg t.supporting t.total_upstream (ground arith) in
          let not_low : d.lt ratio (d.lit 0 0) ≡ false = not_lt_zero ratio positive in
          rw (some, not_low)
            (scaled-IsUnit (if d.lt (d.lit 1 0) ratio then d.lit 1 0 else ratio)
              (capped ratio positive))
    ]

    -- The causality score is a number in [0,1], whatever the timeline and the edges are.
    pub evaluate-IsUnit :
        (root : String) (timeline : List (TimelineEvent F)) (edges : List (ServiceGraphEdge F))
        → IsUnit (evaluate root timeline edges).score
    unfolding evaluate
    evaluate-IsUnit root [] edges = IsUnit-zero
    evaluate-IsUnit root (x ∷ xs) [] = IsUnit-zero
    evaluate-IsUnit root (x ∷ xs) (e ∷ es) = elim (Bool-cases (str_eq root "")) [
      | inl none ↦ rw none IsUnit-zero
      | inr some ↦ rw some (conclude-IsUnit _)
    ]
