-- ===== src/MockCore/Client.antt =====
-- internal/repo/mirador_core.go against deployment/localdev/mock-core/main.go: the client and the server
-- that stands in for mirador-core agree on the paths and on the JSON.
use mirador_rca.Prelude.{◌≡◌, refl, ap, ◌∙◌, true, Option, some, String, List, [], ◌∷◌, map, All}
use mirador_rca.Prelude.Int.{ℤ}
use mirador_rca.Prelude.Text.{equal_fold, to_lower, codes_eq}
use mirador_rca.Double.{Double}
use mirador_rca.Json.{
  Json, Fields, field, no_fields, array, items_of, find, read_object, read_time, read_int,
}
use mirador_rca.Json.Reading.{read_items-items_of}
use mirador_rca.Model.{Time, MetricPoint, LogEntry, ServiceGraphEdge}
use mirador_rca.Core.{SentSpan}
use mirador_rca.Core.Http.{point_from, entry_from, sent_span_from, edge_from, list_in}
use mirador_rca.MockCore.{series_point, log_entry, trace_span, service_graph_edge, under}

-- A time that is read back, and a count that a float holds.
abbrev pub IsRead : (Time → String) → (String → Option Time) → Time → Type 0
IsRead format_time parse_time t = parse_time (format_time t) ≡ some t

abbrev pub IsWhole : (F : Type 0) ⦃d : Double F⦄ → ℤ → Type 0
IsWhole F ⦃d⦄ n = (d.trunc (d.of_int n) ≡ n) × (d.eq (d.of_int n) (d.of_int n) ≡ true)

module _ (F : Type 0) ⦃d : Double F⦄ (format_time : Time → String)
    (parse_time : String → Option Time) where
  pub point_from-series_point :
      (p : MetricPoint F)
      → IsRead format_time parse_time p.timestamp
      → read_object (point_from parse_time) (series_point format_time p) ≡ some p
  unfolding point_from series_point find read_time equal_fold to_lower codes_eq
  point_from-series_point p h = rw h refl

  pub entry_from-log_entry :
      (e : LogEntry)
      → IsRead format_time parse_time e.timestamp × IsWhole F e.count
      → read_object (entry_from {F = F} parse_time) (log_entry format_time e) ≡ some e
  unfolding entry_from log_entry find read_time read_int equal_fold to_lower codes_eq
  entry_from-log_entry e (h, (t, q)) = rw (h, t, q) refl

  pub sent_span_from-trace_span :
      (s : SentSpan F)
      → IsRead format_time parse_time s.timestamp
      → read_object (sent_span_from parse_time) (trace_span format_time s) ≡ some s
  unfolding sent_span_from trace_span find read_time equal_fold to_lower codes_eq
  sent_span_from-trace_span s h = rw h refl

  pub edge_from-service_graph_edge :
      (e : ServiceGraphEdge F) → read_object edge_from (service_graph_edge e) ≡ some e
  unfolding edge_from service_graph_edge find equal_fold to_lower codes_eq
  edge_from-service_graph_edge e = refl

  pub list_in-under :
      {A : Type 0} (key : String) (read : Fields F → Option A) (write : A → Json F) (l : List A)
      → find key (field key (array (items_of write l)) no_fields) ≡ array (items_of write l)
      → All (λ a. read_object read (write a) ≡ some a) l
      → list_in key read (under key write l) ≡ some l
  unfolding list_in
  list_in-under key read write l found h =
      rw found (read_items-items_of (read_object read) write (λ a. a) l h ∙ ap some (map_same l))
    where
      map_same : {A : Type 0} (l : List A) → map (λ (a : A). a) l ≡ l
      map_same [] = refl
      map_same (a ∷ l) = ap (◌∷◌ a) (map_same l)
