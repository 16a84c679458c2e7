-- ===== src/Engine/Pipeline/Advice.antt =====
-- internal/engine/pipeline.go, `fetchRecommendations`: past incidents first, rules second, defaults last.
use mirador_rca.Prelude.{Option, none, some, String, List, [], ◌∷◌, ◌≡◌, ◌≢◌, refl, sym, ◌∙◌, arith}
use mathlib.Core.Path.{subst}
use mirador_rca.Prelude.Int.{pos}
use mirador_rca.Prelude.Outcome.{Reply, reply, failure, Outcome, ok}
use mirador_rca.Model.{InvestigationRequest, CorrelationResult, RedAnchor, TimelineEvent}
use mirador_rca.Engine.Rules.{recommend}
use mirador_rca.Engine.Pipeline.{
  WeaviateClient, Pipeline, default_recommendations, or_default, of_first, recommend_from_rules,
  fetch_recommendations,
}

module _ {W F : Type 0} (req : InvestigationRequest F) where
  -- The question to the store of past incidents, if there is one, and its answer.
  abbrev pub ask_of : Option (WeaviateClient W F) → W → Reply (List (CorrelationResult F)) × W
  ask_of none w = (reply [], w)
  ask_of (some client) w = client.similar_incidents req.tenant_id req.symptoms (pos 3) w

-- What the answer recommends.
module _ {F : Type 0} where
  abbrev pub past_of : Reply (List (CorrelationResult F)) → List String
  past_of (reply found) = of_first found
  past_of (failure e) = []

module _ {W F : Type 0} (p : Pipeline W F) (req : InvestigationRequest F) where
  abbrev pub ask : W → Reply (List (CorrelationResult F)) × W
  ask w = ask_of req p.weaviate w

  module _ (anchors : List (RedAnchor F)) (timeline : List (TimelineEvent F)) where
    -- The first source that has something to recommend.
    pub data IsAdvice (past : List String) : List String → Type 0 where
      from_past : past ≢ [] → IsAdvice past past
      from_rules :
          past ≡ []
          → recommend p.rules_engine req anchors timeline ≢ []
          → IsAdvice past (recommend p.rules_engine req anchors timeline)
      from_defaults :
          past ≡ []
          → recommend p.rules_engine req anchors timeline ≡ []
          → IsAdvice past default_recommendations

    pub IsAdvice-some : {past advice : List String} → IsAdvice past advice → advice ≢ []
    IsAdvice-some (from_past h) = h
    IsAdvice-some (from_rules e h) = h
    IsAdvice-some (from_defaults e h) = λ k. ground arith

    fallback-IsAdvice :
        (past : List String)
        → past ≡ []
        → IsAdvice past (recommend_from_rules p req anchors timeline)
    unfolding recommend_from_rules or_default
    fallback-IsAdvice past e = go (recommend p.rules_engine req anchors timeline) refl
      where
        go :
            (l : List String)
            → recommend p.rules_engine req anchors timeline ≡ l
            → IsAdvice past (or_default l)
        go [] k = from_defaults e k
        go (x ∷ xs) k = subst (IsAdvice past) k (from_rules e λ h. ground (arith, sym k ∙ h))

    -- The recommendations are those of the most similar past incident; where the store is not
    -- configured, fails, finds none, or its first has none, they are those of the rules; where these
    -- have none, the two default ones. One question is asked, no error comes out, and there is always
    -- something to recommend.
    pub fetch_recommendations_lem :
        (w : W)
        → (advice : List String) × (fetch_recommendations p req anchors timeline w
            ≡ (ok advice, (ask w).1))
          × IsAdvice (past_of (ask w).0) advice
          × (advice ≢ [])
    unfolding fetch_recommendations of_first
    fetch_recommendations_lem w =
        let (advice, e, a) = asked p.weaviate in (advice, e, a, IsAdvice-some a)
      where
        chosen :
            (past : List String) (w' : W)
            → (advice : List String) × (elim past as (λ _. Outcome (List String) × W) [
              | [] ↦ (ok (recommend_from_rules p req anchors timeline), w')
              | r ∷ rs ↦ (ok (r ∷ rs), w')
            ]
                ≡ (ok advice, w'))
              × IsAdvice past advice
        chosen [] w' = (_, refl, fallback-IsAdvice [] refl)
        chosen (r ∷ rs) w' = (_, refl, from_past λ h. ground arith)

        answered :
            (x : Reply (List (CorrelationResult F)) × W)
            → (advice : List String) × (elim x.0 as (λ _. Outcome (List String) × W) [
              | failure e ↦ (ok (recommend_from_rules p req anchors timeline), x.1)
              | reply found ↦ elim (of_first found) as (λ _. Outcome (List String) × W) [
                | [] ↦ (ok (recommend_from_rules p req anchors timeline), x.1)
                | r ∷ rs ↦ (ok (r ∷ rs), x.1)
              ]
            ]
                ≡ (ok advice, x.1))
              × IsAdvice (past_of x.0) advice
        answered (failure e, w') = (_, refl, fallback-IsAdvice [] refl)
        answered (reply found, w') = chosen (of_first found) w'

        asked :
            (c : Option (WeaviateClient W F))
            → (advice : List String) × (elim c as (λ _. Outcome (List String) × W) [
              | none ↦ (ok (recommend_from_rules p req anchors timeline), w)
              | some client ↦
                  let x = client.similar_incidents req.tenant_id req.symptoms (pos 3) w in
                  elim x.0 as (λ _. Outcome (List String) × W) [
                    | failure e ↦ (ok (recommend_from_rules p req anchors timeline), x.1)
                    | reply found ↦ elim (of_first found) as (λ _. Outcome (List String) × W) [
                      | [] ↦ (ok (recommend_from_rules p req anchors timeline), x.1)
                      | r ∷ rs ↦ (ok (r ∷ rs), x.1)
                    ]
                  ]
            ]
                ≡ (ok advice, (ask_of req c w).1))
              × IsAdvice (past_of (ask_of req c w).0) advice
        asked none = (_, refl, fallback-IsAdvice [] refl)
        asked (some client) =
            answered (client.similar_incidents req.tenant_id req.symptoms (pos 3) w)
