-- ===== src/Service/Concurrent/Durations.antt =====
-- internal/services/rca_service.go, `InvestigateIncident` in many goroutines: the durations that the
-- pipeline took, and where each of them goes.
use mathlib.Core.List.{append_assoc, perm_append_comm, Perm}
use mathlib.Core.List.Perm
use mirador_rca.Prelude.{◌≡◌, refl, sym, ap, ◌∙◌, List, [], ◌∷◌, ◌++◌}
use mirador_rca.Model.{Duration}
use mirador_rca.Service.Handlers.{RcaService}
use mirador_rca.Service.Concurrent.{
  Phase, called, answered, broke, observed, Shared, Move, refuse, pipeline_answers, pipeline_fails,
  count_error, observe_latency, count_success, is_twentieth, respond, log_latency,
}
use mirador_rca.Service.Concurrent.Moves.{or_zero, counts}

perm_left_comm {ℓ} : {A : Type ℓ} (xs ys zs : List A) → Perm (xs ++ (ys ++ zs)) (ys ++ (xs ++ zs))
perm_left_comm xs ys zs =
    rw (← append_assoc xs ys zs, ← append_assoc ys xs zs)
      (Perm.append_right zs (perm_append_comm xs ys))

module _ {F : Type 0} where
  -- The duration with which the pipeline ends in a step, and the one that a handler has yet to count.
  abbrev pub answers : Phase F → Phase F → List Duration
  answers (called req) (answered duration result) = or_zero duration ∷ []
  answers (called req) (broke duration e) = or_zero duration ∷ []
  answers _ _ = []

  abbrev pub pending : Phase F → List Duration
  pending (answered duration result) = or_zero duration ∷ []
  pending (broke duration e) = or_zero duration ∷ []
  pending (observed duration result) = or_zero duration ∷ []
  pending _ = []

  abbrev pub all_pending : List (Phase F) → List Duration
  all_pending [] = []
  all_pending (p ∷ ps) = pending p ++ all_pending ps

  all_pending-middle :
      (before after : List (Phase F)) (p : Phase F)
      → Perm (all_pending (before ++ p ∷ after)) (pending p ++ all_pending (before ++ after))
  all_pending-middle [] after p = Perm.refl _
  all_pending-middle (q ∷ before) after p =
      Perm.trans (Perm.append_left (pending q) (all_pending-middle before after p))
        (perm_left_comm (pending q) (pending p) (all_pending (before ++ after)))

module _ {W F : Type 0} (service : RcaService W F) where
  Move-pending :
      {p p' : Phase F} {m m' : Shared}
      → Move service p m p' m'
      → answers p p' ++ pending p ≡ counts p ++ pending p'
  Move-pending (refuse refused) = refl
  Move-pending (pipeline_answers asked) = refl
  Move-pending (pipeline_fails asked) = refl
  Move-pending count_error = refl
  Move-pending observe_latency = refl
  Move-pending count_success = refl
  Move-pending (is_twentieth due) = refl
  Move-pending (respond due) = refl
  Move-pending log_latency = refl

  -- A step of one handler moves a duration on, and leaves those of the others where they are.
  pub moves-pending :
      (before after : List (Phase F)) {p p' : Phase F} {m m' : Shared} (ended done : List Duration)
      → Move service p m p' m'
      → Perm ended (done ++ all_pending (before ++ p ∷ after))
      → Perm (answers p p' ++ ended) (done ++ counts p ++ all_pending (before ++ p' ∷ after))
  moves-pending before after {p} {p'} ended done move h =
      let others = all_pending (before ++ after) in
      let moved : answers p p' ++ (pending p ++ others) ≡ counts p ++ (pending p' ++ others) =
        sym (append_assoc (answers p p') (pending p) others)
        ∙ ap (λ l. l ++ others) (Move-pending move)
        ∙ append_assoc (counts p) (pending p') others in
      rw (append_assoc done (counts p) (all_pending (before ++ p' ∷ after))) (
        Perm.trans (Perm.append_left (answers p p') h) (
          Perm.trans (perm_left_comm (answers p p') done _) (
            Perm.append_left done (
              Perm.trans (Perm.append_left (answers p p') (all_pending-middle before after p)) (
                rw moved (
                  Perm.append_left (counts p) (Perm.symm (all_pending-middle before after p'))))))))
