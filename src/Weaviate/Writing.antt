-- ===== src/Weaviate/Writing.antt =====
-- internal/repo/weaviate_repo.go: `StorePatterns`, `StoreFeedback` and `StoreCorrelation`.
use mirador_rca.Prelude.{
  ◌||◌, Option, none, some, String, List, [], ◌∷◌, ◌++◌, ltb, leb, str_eq, if◌then◌else◌,
}
use mirador_rca.Prelude.Text.{◌<>◌}
use mirador_rca.Prelude.Outcome.{Reply, reply, failure}
use mirador_rca.Json.{Json, text, object, fields_of}
use mirador_rca.Model.{Time, FailurePattern, Feedback, CorrelationResult}
use mirador_rca.Http.{HttpResponse, and_then, wrapped}
use mirador_rca.Weaviate.{Outside, WeaviateRepo, post, not_initialised}
use mirador_rca.Weaviate.Properties.{
  build_pattern_properties, build_feedback_properties, build_correlation_properties,
}

-- A field of a payload that is only set to a text that is not empty.
abbrev set_text : {F : Type 0} → String → String → List (String × Json F)
set_text key value = if str_eq value "" then [] else (key, text value) ∷ []

module _ {W D F : Type 0} (x : Outside W D F) where
  -- A store fails with the body of an answer that is no success.
  abbrev pub stored_or : String → Reply (HttpResponse D) → Reply (Unit {0})
  stored_or context (failure e) = failure e
  stored_or context (reply response) =
      if ltb response.status 200 || leb 300 response.status
      then failure (context <> (": " <> x.trimmed response.body))
      else reply tt

  unfoldable pub store_object : WeaviateRepo W D → String → Reply D → W → Reply (Unit {0}) × W
  store_object r context body w =
      and_then (post x r "/v1/objects" body w) λ answer w'. (stored_or context answer, w')

  unfoldable pub pattern_payload : Time → String → FailurePattern F → Json F
  pattern_payload now tenant_id pattern = object (
      fields_of (
        ("class", text "FailurePattern")
        ∷ ("tenant", text tenant_id)
        ∷ ("properties", build_pattern_properties x.format_time now tenant_id pattern)
        ∷ set_text "id" pattern.id))

  -- The loop of `StorePatterns`, which ends at the first failure.
  unfoldable pub store_each :
      WeaviateRepo W D → String → List (FailurePattern F) → W → Reply (Unit {0}) × W
  store_each r tenant_id [] w = (reply tt, w)
  store_each r tenant_id (pattern ∷ patterns) w =
      and_then
        (store_object r "store pattern failed"
          (x.marshal (pattern_payload (x.now w) tenant_id pattern)) w)
        λ _ w'. store_each r tenant_id patterns w'

  -- `StorePatterns`
  unfoldable pub store_patterns :
      Option (WeaviateRepo W D) → String → List (FailurePattern F) → W → Reply (Unit {0}) × W
  store_patterns none tenant_id patterns w = (not_initialised, w)
  store_patterns (some r) tenant_id patterns w =
      if str_eq r.endpoint "" then (reply tt, w) else store_each r tenant_id patterns w

  unfoldable pub feedback_payload : Time → Feedback → Json F
  feedback_payload now feedback = object (
      fields_of (
        ("class", text "CorrelationFeedback")
        ∷ ("tenant", text feedback.tenant_id)
        ∷ ("properties", build_feedback_properties x.format_time now feedback)
        ∷ []))

  -- `StoreFeedback`
  unfoldable pub store_feedback : Option (WeaviateRepo W D) → Feedback → W → Reply (Unit {0}) × W
  store_feedback none feedback w = (not_initialised, w)
  store_feedback (some r) feedback w =
      if str_eq r.endpoint ""
      then (reply tt, w)
      else store_object r "store feedback failed" (x.marshal (feedback_payload (x.now w) feedback))
          w

  unfoldable pub correlation_payload : Time → String → CorrelationResult F → Json F
  correlation_payload now tenant_id correlation = object (
      fields_of (
        ("class", text "CorrelationRecord")
          ∷ ("properties", build_correlation_properties x.format_time now tenant_id correlation)
          ∷ set_text "id" correlation.correlation_id
        ++ set_text "tenant" tenant_id))

  -- `StoreCorrelation`
  unfoldable pub store_correlation :
      Option (WeaviateRepo W D) → String → CorrelationResult F → W → Reply (Unit {0}) × W
  store_correlation none tenant_id correlation w = (not_initialised, w)
  store_correlation (some r) tenant_id correlation w =
      if str_eq r.endpoint ""
      then (reply tt, w)
      else store_object r "weaviate store correlation failed"
          (wrapped "marshal correlation"
            (x.marshal (correlation_payload (x.now w) tenant_id correlation)))
          w
