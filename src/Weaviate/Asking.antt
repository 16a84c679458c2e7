-- ===== src/Weaviate/Asking.antt =====
-- internal/repo/weaviate_repo.go: `SimilarIncidents` and `FetchPatterns`, which look into the cache
-- first, and answer made-up results where the store cannot be asked.
use mirador_rca.Prelude.{◌==◌, Option, none, some, String, List, [], ◌∷◌, str_eq, if◌then◌else◌}
use mirador_rca.Prelude.Int.{ℤ, pos, ltb_ℤ}
use mirador_rca.Prelude.Outcome.{Reply, reply, failure}
use mirador_rca.Double.{Double}
use mirador_rca.Json.{Json, text, object, fields_of}
use mirador_rca.Model.{Time, Duration, FailurePattern, CorrelationResult}
use mirador_rca.Http.{HttpResponse, and_then}
use mirador_rca.Cache.Provider.{Coding}
use mirador_rca.Weaviate.{Outside, WeaviateRepo, post, not_initialised}
use mirador_rca.Weaviate.Queries.{
  sort_strings, cache_similar_incidents_key, cache_patterns_key, similar_query, patterns_query,
}
use mirador_rca.Weaviate.Records.{incident_from, pattern_from, rows_from}
use mirador_rca.Weaviate.Synthetic.{synthetic_similar_incidents, synthetic_patterns}

abbrev pub query_payload : {F : Type 0} → String → Json F
query_payload query = object (fields_of (("query", text query) ∷ []))

-- What the two operations look up: under which key and for how long it is cached, the query, how its
-- answer is read, what stands in for it, and how it is coded.
pub record Lookup (D F A : Type 0) : Type 0 where
  pub key : String
  pub ttl : Duration
  pub query : String
  pub rows : Json F → Option (List A)
  pub stand_in : Time → List A
  pub coding : Coding D (List A)

module _ {W D F : Type 0} (x : Outside W D F) where
  abbrev pub fitted : {A : Type 0} → Json F → Option A → Reply A
  fitted json none = failure (x.misfit json)
  fitted json (some a) = reply a

  -- A body that is decoded into a struct.
  unfoldable pub decode_rows : {A : Type 0} → (Json F → Option A) → Reply (Json F) → Reply A
  decode_rows read (failure e) = failure e
  decode_rows read (reply json) = fitted json (read json)

module _ {W D F A : Type 0} where
  unfoldable pub unmarshal_cached : Lookup D F A → Reply D × W → Option (List A) × W
  unmarshal_cached l (failure e, w) = (none, w)
  unmarshal_cached l (reply bytes, w) = (l.coding.unmarshal bytes, w)

  -- What the cache has under the key, if it can be read and decoded.
  unfoldable pub recall : WeaviateRepo W D → Lookup D F A → W → Option (List A) × W
  recall r l w = unmarshal_cached l (r.cache.get l.key w)

  unfoldable pub set_cached : WeaviateRepo W D → Lookup D F A → Option D → W → W
  set_cached r l none w = w
  set_cached r l (some bytes) w = (r.cache.set l.key bytes l.ttl w).1

  -- Results are cached if there are any; a failure is ignored.
  unfoldable pub remember : WeaviateRepo W D → Lookup D F A → List A → W → W
  remember r l [] w = w
  remember r l (a ∷ results) w =
      if ltb_ℤ (pos 0) l.ttl then set_cached r l (l.coding.marshal (a ∷ results)) w else w

module _ {W D F A : Type 0} (x : Outside W D F) (r : WeaviateRepo W D) (l : Lookup D F A) where
  unfoldable pub results_or : Reply (List A) → W → Reply (List A) × W
  results_or (failure e) w = (reply (l.stand_in (x.now w)), w)
  results_or (reply results) w = (reply results, remember r l results w)

  -- What comes of an answer; one that is no success or that cannot be read is replaced.
  unfoldable pub answered : Reply (HttpResponse D) → W → Reply (List A) × W
  answered (failure e) w = (reply (l.stand_in (x.now w)), w)
  answered (reply response) w =
      if response.status == 200
      then results_or (decode_rows x l.rows (x.decode response.body)) w
      else (reply (l.stand_in (x.now w)), w)

  unfoldable pub ask : W → Reply (List A) × W
  ask w = and_then (post x r "/v1/graphql" (x.marshal (query_payload l.query)) w) answered

  unfoldable pub or_ask : Option (List A) × W → Reply (List A) × W
  or_ask (some cached, w) = (reply cached, w)
  or_ask (none, w) = ask w

  unfoldable pub look_up : W → Reply (List A) × W
  look_up w =
      if str_eq r.endpoint ""
      then (reply (l.stand_in (x.now w)), w)
      else if ltb_ℤ (pos 0) l.ttl
      then or_ask (recall r l w)
      else ask w

module _ {W D F : Type 0} ⦃d : Double F⦄ (x : Outside W D F) where
  abbrev pub similar_lookup :
      WeaviateRepo W D → String → List String → ℤ → Lookup D F (CorrelationResult F)
  similar_lookup r tenant_id symptoms limit = record {
    key = cache_similar_incidents_key tenant_id (sort_strings symptoms) limit;
    ttl = r.similar_ttl;
    query = similar_query limit tenant_id;
    rows = rows_from (incident_from x.parse_time) "CorrelationRecord";
    stand_in = λ now. synthetic_similar_incidents now symptoms limit;
    coding = x.correlations;
  }

  -- `SimilarIncidents`
  unfoldable pub similar_incidents :
      Option (WeaviateRepo W D)
      → String
      → List String
      → ℤ
      → W
      → Reply (List (CorrelationResult F)) × W
  similar_incidents none tenant_id symptoms limit w = (not_initialised, w)
  similar_incidents (some r) tenant_id symptoms limit w =
      look_up x r (similar_lookup r tenant_id symptoms limit) w

  abbrev pub patterns_lookup : WeaviateRepo W D → String → String → Lookup D F (FailurePattern F)
  patterns_lookup r tenant_id service = record {
    key = cache_patterns_key tenant_id service;
    ttl = r.pattern_ttl;
    query = patterns_query tenant_id service;
    rows = rows_from (pattern_from x.parse_time) "FailurePattern";
    stand_in = λ now. synthetic_patterns now service;
    coding = x.patterns;
  }

  -- `FetchPatterns`
  unfoldable pub fetch_patterns :
      Option (WeaviateRepo W D) → String → String → W → Reply (List (FailurePattern F)) × W
  fetch_patterns none tenant_id service w = (not_initialised, w)
  fetch_patterns (some r) tenant_id service w = look_up x r (patterns_lookup r tenant_id service) w
