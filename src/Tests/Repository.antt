-- ===== src/Tests/Repository.antt =====
-- The repository on a store with one correlation.
use text.Mathlib.TextPositions.{eq_refl}
use mirador_rca.Prelude.{
  ℕ, zero, suc, ◌/◌, ◌≤◌, ◌≡◌, refl, inl, inr, false, none, some, String, List, [], ◌∷◌, str_eq,
  arith,
}
use mirador_rca.Prelude.Int.{pos}
use mirador_rca.Prelude.Text.{format_int, digits, digit, equal_fold, to_lower, codes_eq}
use mirador_rca.Prelude.Outcome.{reply}
use mirador_rca.Double.Fixed.{Fixed, fixed_double}
use mirador_rca.Json.{Json, null, read_object, find}
use mirador_rca.Json.Reading.{read_items-items_of}
use mirador_rca.Weaviate.Asking.{query_payload}
use mirador_rca.Model.{CorrelationResult}
use mirador_rca.Weaviate.Properties.{build_correlation_properties, build_pattern_properties}
use mirador_rca.Weaviate.Records.{correlation_from, pattern_from, rows_from}
use mirador_rca.Weaviate.Stored.{
  IsStorable, as_stored, pattern_as_stored, correlation_from-build, pattern_from-build,
}
use mirador_rca.Weaviate.Pages.{Serves, IsPage}
use mirador_rca.Weaviate.Paging.{all_pages, all_pages_lem}
use mirador_rca.Weaviate.Listing.{page_limit, read_correlations}
use mirador_rca.Weaviate.Queries.{list_query, build_correlation_where, join}
use mirador_rca.Tests.Store.{
  print_time, read_digits, read_digits-print_time, correlation, list_request, outside, repository,
  second_page, stored_row, answer_of, pattern, Body, json_body, Entry,
}

storable : IsStorable (pos 0) correlation
storable = (
  omega arith,
  ((inr (inr refl), omega arith), tt),
  ((inr (inr (inl refl)), inr (inl refl), omega arith), tt),
)

correlation_from-build_example :
    read_object
      (correlation_from read_digits)
      (build_correlation_properties print_time (pos 0) "tenant" correlation)
    ≡ some (as_stored (pos 0) correlation)
correlation_from-build_example =
    correlation_from-build print_time read_digits read_digits-print_time (pos 0) "tenant"
      correlation storable

pattern_from-build_example :
    read_object
      (pattern_from read_digits)
      (build_pattern_properties print_time (pos 0) "tenant" pattern)
    ≡ some (pattern_as_stored (pos 0) pattern)
pattern_from-build_example =
    pattern_from-build print_time read_digits read_digits-print_time (pos 0) "tenant" pattern
      (omega arith)

abbrev rows : List (CorrelationResult Fixed)
rows = as_stored (pos 0) correlation ∷ []

abbrev first_page : String
first_page = list_query print_time (pos 1) (pos 0) list_request

first-second : str_eq first_page second_page ≡ false
unfolding list_query build_correlation_where join format_int digits digit
first-second = refl

limit_one : page_limit list_request.page_size ≡ 1
unfolding page_limit
limit_one = refl

abbrev object_in : Body → Json Fixed
object_in (json_body json) = json
object_in b = null

read_first : read_correlations outside (object_in (answer_of (stored_row ∷ []))) ≡ some rows
unfolding read_correlations rows_from find equal_fold to_lower codes_eq
read_first =
    read_items-items_of (read_object (correlation_from read_digits))
      (build_correlation_properties print_time (pos 0) "tenant") (as_stored (pos 0))
      (correlation ∷ [])
      (
        correlation_from-build print_time read_digits read_digits-print_time (pos 0) "tenant"
            correlation storable,
        tt,
      )

read_second : read_correlations outside (object_in (answer_of [])) ≡ some []
unfolding read_correlations rows_from find equal_fold to_lower codes_eq
read_second = refl

page_zero : (w : Entry) → IsPage outside (repository "http://store") list_request rows 0 w
unfolding page_limit
page_zero w = record {
  bytes = json_body (query_payload first_page);
  json = object_in (answer_of (stored_row ∷ []));
  body = answer_of (stored_row ∷ []);
  after = w;
  marshalled = refl;
  sent = rw first-second refl;
  decoded = refl;
  read = read_first;
}

page_one : (w : Entry) → IsPage outside (repository "http://store") list_request rows 1 w
unfolding page_limit
page_one w = record {
  bytes = json_body (query_payload second_page);
  json = object_in (answer_of []);
  body = answer_of [];
  after = w;
  marshalled = refl;
  sent = rw (eq_refl second_page) refl;
  decoded = refl;
  read = read_second;
}

pages :
    (offset : ℕ) (w : Entry)
    → offset ≤ 1
    → IsPage outside (repository "http://store") list_request rows offset w
pages zero w h = page_zero w
pages (suc zero) w h = page_one w
pages (suc (suc offset)) w h = absurd (omega arith)

serves : Serves outside (repository "http://store") list_request rows
serves = record { configured = refl; reachable = refl; pages = pages }

all_pages_lem_example :
    (all_pages outside
      (repository "http://store")
      list_request
      (suc (1 / page_limit list_request.page_size))
      ""
      none).0
    ≡ reply rows
all_pages_lem_example =
    all_pages_lem outside (repository "http://store") list_request rows none serves (omega arith)
