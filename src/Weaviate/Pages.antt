-- ===== src/Weaviate/Pages.antt =====
-- internal/repo/weaviate_repo.go, `ListCorrelations`: one page of a store that has rows.
use mirador_rca.Prelude.Int.{pos}
use mirador_rca.Prelude.{
  ℕ, ◌≤◌, ◌≡◌, refl, false, String, List, some, length, take, drop, str_eq, arith,
}
use mirador_rca.Prelude.Text.{◌<>◌}
use mirador_rca.Prelude.Outcome.{reply}
use mirador_rca.Weaviate.Queries.{list_query, build_correlation_where}
use mirador_rca.Double.{Double}
use mirador_rca.Json.{Json}
use mirador_rca.Model.{CorrelationResult, ListCorrelationsRequest, ListCorrelationsResponse}
use mirador_rca.Weaviate.{Outside, WeaviateRepo, post, request_to}
use mirador_rca.Weaviate.Asking.{query_payload, decode_rows}
use mirador_rca.Weaviate.Listing.{
  page_limit, page_offset, next_token, page_of, read_correlations, listed, list_text,
  list_correlations,
}

-- Pages have at least one place, and at most a hundred.
pub page_limit_bounds :
    (req : ListCorrelationsRequest)
    → (1 ≤ page_limit req.page_size) × (page_limit req.page_size ≤ 100)
unfolding page_limit
page_limit_bounds req = ground arith

abbrev pub with_token : ListCorrelationsRequest → String → ListCorrelationsRequest
with_token req token = record req { page_token = token }

module _ {W D F : Type 0} ⦃d : Double F⦄ (x : Outside W D F) (r : WeaviateRepo W D)
    (req : ListCorrelationsRequest) where
  -- What the store answers to the query for a page: the rows from the offset on, up to the limit.
  pub record IsPage (rows : List (CorrelationResult F)) (offset : ℕ) (w : W) : Type 0 where
    pub bytes : D
    pub json : Json F
    pub body : D
    pub after : W
    pub marshalled :
        x.marshal (
          query_payload
            (list_query x.format_time (pos (page_limit req.page_size)) (pos offset) req))
        ≡ reply bytes
    pub sent :
        x.send (request_to r "/v1/graphql" bytes) w
        ≡ (reply (record { status = 200; body = body }), after)
    pub decoded : x.decode body ≡ reply json
    pub read : read_correlations x json ≡ some (take (page_limit req.page_size) (drop offset rows))

  -- A store that can be reached, and that has these rows for a request.
  pub record Serves (rows : List (CorrelationResult F)) : Type 0 where
    pub configured : str_eq r.endpoint "" ≡ false
    pub reachable : x.new_request (r.endpoint <> "/v1/graphql") ≡ reply tt
    pub pages : (offset : ℕ) (w : W) → offset ≤ length rows → IsPage rows offset w

  abbrev pub page_at : List (CorrelationResult F) → ℕ → ListCorrelationsResponse F
  page_at rows offset = record {
    correlations = take (page_limit req.page_size) (drop offset rows);
    next_page_token =
        next_token (page_limit req.page_size) offset
          (length (take (page_limit req.page_size) (drop offset rows)));
  }

  -- The query does not depend on the token itself.
  list_text-with_token :
      (token : String)
      → list_text x (with_token req token)
        ≡ list_query x.format_time (pos (page_limit req.page_size)) (pos (page_offset token)) req
  unfolding list_query build_correlation_where
  list_text-with_token token = refl

  pub list_correlations-Serves :
      (rows : List (CorrelationResult F)) (s : Serves rows) (token : String) (w : W)
      (h : page_offset token ≤ length rows)
      → list_correlations x (some r) (with_token req token) w
        ≡ (reply (page_at rows (page_offset token)), (s.pages (page_offset token) w h).after)
  unfolding list_correlations post listed decode_rows page_of
  list_correlations-Serves rows s token w h =
      let p = s.pages (page_offset token) w h in
      rw
        (
          s.configured,
          list_text-with_token token,
          p.marshalled,
          s.reachable,
          p.sent,
          p.decoded,
          p.read,
        )
        refl
