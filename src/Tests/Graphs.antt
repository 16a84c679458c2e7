-- ===== src/Tests/Graphs.antt =====
-- The service graph through a cache of one entry.
use mirador_rca.Prelude.{◌≡◌, refl, Option, none, some, List, []}
use mirador_rca.Prelude.Int.{pos}
use mirador_rca.Prelude.Outcome.{Reply, reply, failure}
use mirador_rca.Double.Fixed.{Fixed}
use mirador_rca.Model.{ServiceGraphEdge}
use mirador_rca.Core.{
  Backend, MiradorCoreClient, fetch_service_graph, some_of, service_graph_cache_key, cached_edges,
  decode_cached,
}
use mirador_rca.Core.ReadThrough.{IsKept, fetch_service_graph-twice}
use mirador_rca.Tests.Data.{cpu_series, log_entries}

abbrev Edges : Type 0
Edges = List (ServiceGraphEdge Fixed)

abbrev entry : Option Edges → Reply Edges
entry none = failure "cache miss"
entry (some edges) = reply edges

-- A core without edges.
abbrev backend : Backend (Option Edges) Edges Fixed
backend = record {
  post_metrics = λ tenant service start end w. (reply cpu_series, w);
  post_logs = λ tenant service start end w. (reply log_entries, w);
  post_traces = λ tenant service start end w. (reply [], w);
  post_graph = λ tenant start end w. (reply [], w);
  cache_get = λ key w. (entry w, w);
  cache_set = λ key edges ttl w. (reply tt, some edges);
  marshal = λ edges. some edges;
  unmarshal = λ edges. some edges;
}

abbrev client : MiradorCoreClient (Option Edges) Edges Fixed
client = record { base_url = "http://core"; service_graph_ttl = pos 60; backend = backend }

backend-IsKept : IsKept client (service_graph_cache_key "tenant" (pos 0) (pos 9)) [] none
backend-IsKept = record { text = []; marshalled = refl; unmarshalled = refl; found = refl }

misses : cached_edges client (service_graph_cache_key "tenant" (pos 0) (pos 9)) none ≡ (none, none)
unfolding cached_edges decode_cached
misses = refl

fetch_service_graph-twice_example :
    ((fetch_service_graph client "tenant" (pos 0) (pos 9) none).0
      ≡ some_of "mirador-core service graph returned no edges" [])
    × ((fetch_service_graph client "tenant"
          (pos 0)
          (pos 9)
          (fetch_service_graph client "tenant" (pos 0) (pos 9) none).1).0
        ≡ reply [])
fetch_service_graph-twice_example =
    fetch_service_graph-twice client "tenant" (pos 0) (pos 9) [] none none none refl refl misses
      refl backend-IsKept
