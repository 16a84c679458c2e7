-- ===== src/Weaviate.antt =====
-- internal/repo/weaviate_repo.go: the repository of patterns, feedback and correlations. HTTP, the bytes
-- of JSON, the printing of times and the coding of what is cached are parameters.
pub mod Queries
pub mod Properties
pub mod Records
pub mod Synthetic
pub mod Writing
pub mod Asking
pub mod Listing
pub mod Stored
pub mod Stores
pub mod Batch
pub mod Tokens
pub mod Pages
pub mod Paging
pub mod Keys
pub mod Recall
pub mod Resilience
pub mod Uncached
pub mod Client
pub mod Advice
use mirador_rca.Prelude.{Option, none, some, String, List, str_eq, if◌then◌else◌}
use mirador_rca.Prelude.Int.{pos, ltb_ℤ, leb_ℤ, ◌*ℤ◌}
use mirador_rca.Prelude.Text.{◌<>◌, trim_slashes}
use mirador_rca.Prelude.Outcome.{Reply, reply, failure}
use mirador_rca.Json.{Json}
use mirador_rca.Http.{HttpRequest, HttpResponse, attempt}
use mirador_rca.Model.{Time, Duration, second, FailurePattern, CorrelationResult}
use mirador_rca.Cache.Provider.{Provider, Coding, or_noop}

module _ (W D F : Type 0) where
  -- What lies outside: `json.Marshal` of a payload, `http.NewRequestWithContext`, `httpClient.Do`, the
  -- trimmed text of a body, the decoder of a body and its error on a value of another shape, the clock,
  -- and `time.RFC3339`.
  pub record Outside : Type 0 where
    pub marshal : Json F → Reply D
    pub new_request : String → Reply (Unit {0})
    pub send : HttpRequest D → W → Reply (HttpResponse D) × W
    pub trimmed : D → String
    pub decode : D → Reply (Json F)
    pub misfit : Json F → String
    pub now : W → Time
    pub format_time : Time → String
    pub parse_time : String → Option Time
    pub correlations : Coding D (List (CorrelationResult F))
    pub patterns : Coding D (List (FailurePattern F))

pub record WeaviateRepo (W D : Type 0) : Type 0 where
  pub endpoint : String
  pub api_key : String
  pub timeout : Duration
  pub cache : Provider W D
  pub similar_ttl : Duration
  pub pattern_ttl : Duration

abbrev not_negative : Duration → Duration
not_negative ttl = if ltb_ℤ ttl (pos 0) then pos 0 else ttl

module _ {W D : Type 0} where
  -- `NewWeaviateRepo`
  unfoldable pub new_weaviate_repo :
      String → String → Duration → Option (Provider W D) → Duration → Duration → WeaviateRepo W D
  new_weaviate_repo endpoint api_key timeout cache_provider similar_ttl pattern_ttl = record {
    endpoint = trim_slashes endpoint;
    api_key = api_key;
    timeout = if leb_ℤ timeout (pos 0) then pos 5 *ℤ second else timeout;
    cache = or_noop cache_provider;
    similar_ttl = not_negative similar_ttl;
    pattern_ttl = not_negative pattern_ttl;
  }

abbrev pub not_initialised : {A : Type 0} → Reply A
not_initialised = failure "weaviate repo not initialised"

abbrev pub request_to : {W D : Type 0} → WeaviateRepo W D → String → D → HttpRequest D
request_to r path body = record {
  url = r.endpoint <> path;
  authorization = if str_eq r.api_key "" then none else some ("Bearer " <> r.api_key);
  body = body;
}

module _ {W D F : Type 0} (x : Outside W D F) where
  -- A payload is marshalled and sent to a path, if it and the address can be; then comes the answer.
  unfoldable pub post : WeaviateRepo W D → String → Reply D → W → Reply (Reply (HttpResponse D)) × W
  post r path body = attempt body λ bytes.
      attempt (x.new_request (r.endpoint <> path))
        λ _ w. let (answer, w') = x.send (request_to r path bytes) w in (reply answer, w')
