-- ===== src/Weaviate/Listing.antt =====
-- internal/repo/weaviate_repo.go: `ListCorrelations`, page by page.
use mirador_rca.Prelude.{
  ℕ, ◌+◌, ◌==◌, ◌||◌, Option, none, some, String, List, length, str_eq, if◌then◌else◌,
}
use mirador_rca.Prelude.Int.{ℤ, pos, negsuc, pos_part, ltb_ℤ, leb_ℤ}
use mirador_rca.Prelude.Text.{codes, format_int}
use mirador_rca.Prelude.Outcome.{Reply, reply, failure}
use mirador_rca.Double.{Double}
use mirador_rca.Json.{Json}
use mirador_rca.Model.{CorrelationResult, ListCorrelationsRequest, ListCorrelationsResponse}
use mirador_rca.Cache.Resp.{atoi}
use mirador_rca.Http.{HttpResponse, and_then}
use mirador_rca.Weaviate.{Outside, WeaviateRepo, post, not_initialised}
use mirador_rca.Weaviate.Queries.{list_query}
use mirador_rca.Weaviate.Records.{correlation_from, rows_from}
use mirador_rca.Weaviate.Synthetic.{synthetic_correlation_list}
use mirador_rca.Weaviate.Asking.{query_payload, decode_rows}

-- The size of a page, 20 where none from 1 to 100 is asked for.
unfoldable pub page_limit : ℤ → ℕ
page_limit page_size =
    if leb_ℤ page_size (pos 0) || ltb_ℤ (pos 100) page_size then 20 else pos_part page_size

abbrev or_start : Option ℤ → ℕ
or_start none = 0
or_start (some (pos n)) = n
or_start (some (negsuc n)) = 0

-- Where a page starts; a token that is no number starts anew.
unfoldable pub page_offset : String → ℕ
page_offset token = if str_eq token "" then 0 else or_start (atoi (codes token))

-- There may be more after a full page.
unfoldable pub next_token : ℕ → ℕ → ℕ → String
next_token limit offset found = if found == limit then format_int (pos (offset + found)) else ""

module _ {W D F : Type 0} ⦃d : Double F⦄ (x : Outside W D F) where
  unfoldable pub page_of :
      ℕ → ℕ → Reply (List (CorrelationResult F)) → Reply (ListCorrelationsResponse F)
  page_of limit offset (failure e) = failure e
  page_of limit offset (reply correlations) = reply (record {
    correlations = correlations;
    next_page_token = next_token limit offset (length correlations);
  })

  unfoldable pub read_correlations : Json F → Option (List (CorrelationResult F))
  read_correlations = rows_from (correlation_from x.parse_time) "CorrelationRecord"

  -- An answer that is no success is replaced, but one that cannot be read is an error.
  unfoldable pub listed :
      ListCorrelationsRequest → Reply (HttpResponse D) → W → Reply (ListCorrelationsResponse F) × W
  listed req (failure e) w = (reply (synthetic_correlation_list (x.now w) req), w)
  listed req (reply response) w = (
    if response.status == 200
        then page_of (page_limit req.page_size) (page_offset req.page_token)
            (decode_rows x read_correlations (x.decode response.body))
        else reply (synthetic_correlation_list (x.now w) req),
    w,
  )

  abbrev pub list_text : ListCorrelationsRequest → String
  list_text req =
      list_query x.format_time (pos (page_limit req.page_size)) (pos (page_offset req.page_token))
        req

  -- `ListCorrelations`
  unfoldable pub list_correlations :
      Option (WeaviateRepo W D)
      → ListCorrelationsRequest
      → W
      → Reply (ListCorrelationsResponse F) × W
  list_correlations none req w = (not_initialised, w)
  list_correlations (some r) req w =
      if str_eq r.endpoint ""
      then (reply (synthetic_correlation_list (x.now w) req), w)
      else and_then (post x r "/v1/graphql" (x.marshal (query_payload (list_text req))) w)
          (listed req)
