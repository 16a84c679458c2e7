-- ===== src/Weaviate/Advice.antt =====
-- internal/engine/pipeline.go, `fetchRecommendations`, on a repository whose store has no answer.
use mirador_rca.Prelude.{some, String, List, [], ◌∷◌, ◌≡◌, ◌≢◌, refl, ap, ◌∙◌, arith}
use mirador_rca.Prelude.Int.{pos}
use mirador_rca.Prelude.Text.{◌<>◌}
use mirador_rca.Prelude.Outcome.{ok, reply}
use mirador_rca.Double.{Double}
use mirador_rca.Model.{InvestigationRequest, RedAnchor, TimelineEvent}
use mirador_rca.Engine.Pipeline.{Pipeline, of_first, fetch_recommendations}
use mirador_rca.Engine.Pipeline.Advice.{
  IsAdvice, from_past, from_rules, from_defaults, past_of, ask, ask_of, fetch_recommendations_lem,
}
use mirador_rca.Weaviate.{Outside, WeaviateRepo}
use mirador_rca.Weaviate.Synthetic.{
  incidents_from, synthetic_incident, with_hint, synthetic_similar_incidents,
}
use mirador_rca.Weaviate.Asking.{similar_lookup, similar_incidents}
use mirador_rca.Weaviate.Resilience.{IsDown, look_up-IsDown}
use mirador_rca.Weaviate.Client.{weaviate_client}

-- What the first made-up incident recommends.
abbrev pub made_up : List String → List String
made_up [] = "Check downstream dependencies" ∷ "Review recent deploy" ∷ []
made_up (symptom ∷ symptoms) =
    "Check downstream dependencies" ∷ "Review recent deploy" ∷ ("Symptom hint: " <> symptom) ∷ []

module _ {W D F : Type 0} ⦃d : Double F⦄ (x : Outside W D F) (r : WeaviateRepo W D)
    (p : Pipeline W F) (req : InvestigationRequest F) where
  made_up_lem :
      (symptoms : List String) (now : _)
      → of_first (synthetic_similar_incidents {F = F} now symptoms (pos 3)) ≡ made_up symptoms
  unfolding of_first synthetic_similar_incidents with_hint incidents_from synthetic_incident
  made_up_lem [] now = refl
  made_up_lem (symptom ∷ symptoms) now = refl

  module _ (anchors : List (RedAnchor F)) (timeline : List (TimelineEvent F)) where
    IsAdvice-past :
        {past advice : List String}
        → IsAdvice p req anchors timeline past advice
        → past ≢ []
        → advice ≡ past
    IsAdvice-past (from_past h) some_past = refl
    IsAdvice-past (from_rules none_past h) some_past = absurd (some_past none_past)
    IsAdvice-past (from_defaults none_past h) some_past = absurd (some_past none_past)

    made_up-not_empty : (symptoms : List String) → made_up symptoms ≢ []
    made_up-not_empty [] h = ground arith
    made_up-not_empty (symptom ∷ symptoms) h = ground arith

    asked :
        (w w' : W)
        → p.weaviate ≡ some (weaviate_client x (some r))
        → IsDown x r (similar_lookup x r req.tenant_id req.symptoms (pos 3)) w w'
        → ask p req w ≡ (reply (synthetic_similar_incidents (x.now w') req.symptoms (pos 3)), w')
    unfolding similar_incidents
    asked w w' client down =
        ap (λ c. ask_of req c w) client
        ∙ look_up-IsDown x r (similar_lookup x r req.tenant_id req.symptoms (pos 3)) w w' down

    -- Where the store of past incidents is not configured, or a call to it fails, an investigation
    -- recommends what the made-up incidents do: two fixed texts, and the first symptom, if there is one.
    -- The rules are not asked, whatever they are.
    pub fetch_recommendations-IsDown :
        (w w' : W)
        → p.weaviate ≡ some (weaviate_client x (some r))
        → IsDown x r (similar_lookup x r req.tenant_id req.symptoms (pos 3)) w w'
        → fetch_recommendations p req anchors timeline w ≡ (ok (made_up req.symptoms), w')
    fetch_recommendations-IsDown w w' client down =
        let (advice, e, is_advice, some_advice) =
          fetch_recommendations_lem p req anchors timeline w in
        let a = asked w w' client down in
        let past : past_of (ask p req w).0 ≡ made_up req.symptoms =
          ap (λ y. past_of y.0) a ∙ made_up_lem req.symptoms (x.now w') in
        let chosen : advice ≡ made_up req.symptoms =
          IsAdvice-past is_advice (rw past (made_up-not_empty req.symptoms)) ∙ past in
        e ∙ λ i. (ok (chosen i), (a i).1)
