-- ===== src/Engine/Pipeline/Service.antt =====
-- internal/engine/pipeline.go, `DetermineService`: which service is investigated.
use mathlib.Core.List.{Mem, mem-cons_self, mem-cons_of_mem}
use mirador_rca.Prelude.{
  ◌≡◌, ◌≢◌, refl, false, String, List, [], ◌∷◌, str_eq, str_eq_iff, arith, Bool-cases, inl, inr,
  ◌⊎◌, All,
}
use mirador_rca.Model.{InvestigationRequest}
use mirador_rca.Engine.Strings.{first_non_empty}
use mirador_rca.Engine.Pipeline.{first_symptom, determine_service}

first_non_empty_cases :
    (l : List String)
    → ((first_non_empty l ≢ "") × Mem (first_non_empty l) l)
      ⊎ ((first_non_empty l ≡ "") × All (λ s. s ≡ "") l)
unfolding first_non_empty
first_non_empty_cases [] = inr (refl, tt)
first_non_empty_cases (s ∷ ss) = elim (Bool-cases (str_eq s "")) [
  | inr named ↦ rw named (inl (λ e. ground (arith, (str_eq_iff s "").1 e), mem-cons_self))
  | inl blank ↦ rw blank (elim (first_non_empty_cases ss) [
    | inl (n, m) ↦ inl (n, mem-cons_of_mem s m)
    | inr (e, all) ↦ inr (e, ((str_eq_iff s "").0 blank, all))
  ])
]

abbrev fallback_name : String
fallback_name = "unknown-service"

unknown_named : fallback_name ≢ ""
unknown_named h = ground (arith, (str_eq_iff fallback_name "").1 h)

module _ {F : Type 0} (req : InvestigationRequest F) where
  -- Where the name of the service comes from.
  pub data IsChosen : String → Type 0 where
    affected : {s : String} → Mem s req.affected_services → IsChosen s
    symptom :
        {s : String}
        → All (λ x. x ≡ "") req.affected_services
        → first_symptom req.symptoms ≡ s
        → IsChosen s
    unknown :
        All (λ x. x ≡ "") req.affected_services
        → first_symptom req.symptoms ≡ ""
        → IsChosen "unknown-service"

  -- The service is never without a name: it is an affected service of the request, else the first
  -- symptom where all affected services are without a name, else "unknown-service" where that symptom
  -- is missing or empty too.
  pub determine_service_lem : IsChosen (determine_service req) × (determine_service req ≢ "")
  unfolding determine_service
  determine_service_lem = elim (first_non_empty_cases req.affected_services) [
    | inl (n, m) ↦
        let named : str_eq (first_non_empty req.affected_services) "" ≡ false =
          ground (arith, n, str_eq_iff (first_non_empty req.affected_services) "") in
        rw (named, named) (affected m, n)
    | inr (e, all) ↦ rw e (elim (Bool-cases (str_eq (first_symptom req.symptoms) "")) [
      | inl blank ↦ rw blank (unknown all ((str_eq_iff _ _).0 blank), unknown_named)
      | inr said ↦
          rw said (
            symptom all refl,
            λ h. ground (arith, (str_eq_iff (first_symptom req.symptoms) "").1 h),
          )
    ])
  ]
