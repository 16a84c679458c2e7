-- ===== src/Tests/Lookups.antt =====
-- Questions to the repository: through the cache, without one, and without a store.
use mathlib.Core.List.Perm
use mirador_rca.Prelude.{◌≡◌, refl, true, none, some, [], ◌∷◌}
use mirador_rca.Prelude.Int.{pos}
use mirador_rca.Prelude.Text.{format_int, digits, digit, equal_fold, to_lower, codes_eq}
use mirador_rca.Prelude.Outcome.{reply, ok}
use mirador_rca.Double.Fixed.{Fixed, fixed_double}
use mirador_rca.Model.{CorrelationResult}
use mirador_rca.Json.{find, read_time}
use mirador_rca.Cache.Resp.{atoi, unsigned, all_digits}
use mirador_rca.Weaviate.{post}
use mirador_rca.Weaviate.Properties.{build_correlation_properties}
use mirador_rca.Weaviate.Queries.{similar_query, list_query, build_correlation_where, join}
use mirador_rca.Weaviate.Records.{rows_from, incident_from}
use mirador_rca.Weaviate.Asking.{
  recall, unmarshal_cached, decode_rows, similar_lookup, similar_incidents,
}
use mirador_rca.Weaviate.Recall.{IsCache, Answers, similar_incidents-twice}
use mirador_rca.Engine.Pipeline.{Pipeline, fetch_recommendations}
use mirador_rca.Weaviate.Writing.{store_patterns}
use mirador_rca.Weaviate.Batch.{Batch, store_patterns_lem}
use mirador_rca.Weaviate.Resilience.{IsDown, missed}
use mirador_rca.Weaviate.Client.{weaviate_client}
use mirador_rca.Weaviate.Advice.{fetch_recommendations-IsDown}
use mirador_rca.Tests.Data.{request, rules}
use mirador_rca.Tests.Store.{
  outside, repository, one_entry, correlation, incidents_body, answer_of, stored_row, Entry,
  pattern,
}

abbrev incident : CorrelationResult Fixed
incident = record correlation { red_anchors = []; timeline = [] }

one_entry-IsCache : IsCache one_entry
one_entry-IsCache = record { get_set = λ key body ttl w. refl }

misses :
    recall
      (repository "http://store")
      (similar_lookup outside (repository "http://store") "tenant" ("b" ∷ "a" ∷ []) (pos 3))
      none
    ≡ (none, none)
unfolding recall unmarshal_cached
misses = refl

answers :
    Answers outside
      (repository "http://store")
      (similar_lookup outside (repository "http://store") "tenant" ("b" ∷ "a" ∷ []) (pos 3))
      (incident ∷ [])
      none
      none
unfolding post similar_query list_query build_correlation_where join format_int digits digit
    rows_from decode_rows incident_from read_time build_correlation_properties find equal_fold
    to_lower codes_eq atoi unsigned all_digits
answers = record { body = answer_of (stored_row ∷ []); sent = refl; read = refl }

similar_incidents-twice_example :
    let r = repository "http://store" in
    let first = similar_incidents outside (some r) "tenant" ("b" ∷ "a" ∷ []) (pos 3) none in
    (first.0 ≡ reply (incident ∷ []))
    × ((similar_incidents outside (some r) "tenant" ("a" ∷ "b" ∷ []) (pos 3) first.1).0
        ≡ reply (incident ∷ []))
similar_incidents-twice_example =
    similar_incidents-twice outside (repository "http://store") "tenant" ("b" ∷ "a" ∷ [])
      ("a" ∷ "b" ∷ []) (pos 3) incident [] none none none (Perm.swap "a" "b" []) one_entry-IsCache
      (incidents_body (incident ∷ []), refl, refl) refl refl misses answers

abbrev down_pipeline : Pipeline Entry Fixed
down_pipeline = record {
  core_client = none;
  weaviate = some (weaviate_client outside (some (repository "http://down")));
  rules_engine = some (record { rules = rules });
  causality_engine = true;
  traces_threshold = some (pos 2000);
}

down :
    IsDown outside
      (repository "http://down")
      (similar_lookup outside (repository "http://down") request.tenant_id request.symptoms (pos 3))
      none
      none
unfolding recall unmarshal_cached post
down = missed "connection refused" none refl refl refl refl

fetch_recommendations-IsDown_example : fetch_recommendations down_pipeline request [] [] none ≡ (
  ok ("Check downstream dependencies" ∷ "Review recent deploy" ∷ "Symptom hint: latency" ∷ []),
  none,
)
fetch_recommendations-IsDown_example =
    fetch_recommendations-IsDown outside (repository "http://down") down_pipeline request [] [] none
      none refl down

store_patterns_lem_example :
    let y =
      store_patterns outside (some (repository "http://store")) "tenant" (pattern ∷ []) none in
    Batch outside (repository "http://store") "tenant" (pattern ∷ []) none y.0 y.1
store_patterns_lem_example =
    store_patterns_lem outside (repository "http://store") "tenant" (pattern ∷ []) none refl
