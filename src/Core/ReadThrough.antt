-- ===== src/Core/ReadThrough.antt =====
-- internal/repo/mirador_core.go, `FetchServiceGraph`: what a second call answers.
use mirador_rca.Prelude.{true, false, ◌≡◌, ap, ◌∙◌, Option, none, some, String, List, str_eq, arith}
use mirador_rca.Prelude.Int.{pos, ltb_ℤ}
use mirador_rca.Prelude.Outcome.{Reply, reply, failure}
use mirador_rca.Model.{Time, ServiceGraphEdge}
use mirador_rca.Core.{
  MiradorCoreClient, some_of, service_graph_cache_key, cached_edges, cache_edges, decode_cached,
  graph_answer, or_request, request_graph, fetch_service_graph,
}

module _ {W D F : Type 0} (c : MiradorCoreClient W D F) where
  -- In this state the cache keeps these edges under a key: they have a text, the cache gives it back, and
  -- the text reads as the edges.
  pub record IsKept (key : String) (edges : List (ServiceGraphEdge F)) (w : W) : Type 0 where
    pub text : D
    pub marshalled : c.backend.marshal edges ≡ some text
    pub unmarshalled : c.backend.unmarshal text ≡ some edges
    pub found :
        (c.backend.cache_get key (c.backend.cache_set key text c.service_graph_ttl w).1).0
        ≡ reply text

  decode_cached-reply :
      (text : D) (x : Reply D × W)
      → x.0 ≡ reply text
      → (decode_cached c x).0 ≡ c.backend.unmarshal text
  unfolding decode_cached
  decode_cached-reply text (failure e, w) h = absurd (ground arith)
  decode_cached-reply text (reply t, w) h = ap c.backend.unmarshal (ground arith)

  cached_edges-cache_edges :
      (key : String) (edges : List (ServiceGraphEdge F)) (w : W)
      → IsKept key edges w
      → (cached_edges c key (cache_edges c key edges w)).0 ≡ some edges
  unfolding cached_edges cache_edges
  cached_edges-cache_edges key edges w kept =
      ap
        (λ o.
          (cached_edges c key (elim o as (λ _. W) [
            | none ↦ w
            | some t ↦ (c.backend.cache_set key t c.service_graph_ttl w).1
          ])).0)
        kept.marshalled
      ∙ decode_cached-reply kept.text _ kept.found
      ∙ kept.unmarshalled

  module _ (tenant_id : String) (start end : Time) (url : str_eq c.base_url "" ≡ false)
      (ttl : ltb_ℤ (pos 0) c.service_graph_ttl ≡ true) where
    abbrev key : String
    key = service_graph_cache_key tenant_id start end

    fetch_service_graph-cached :
        (w : W)
        → fetch_service_graph c tenant_id start end w
          ≡ or_request c tenant_id start end (cached_edges c key w)
    unfolding fetch_service_graph
    fetch_service_graph-cached w = rw (fetch_service_graph, url, ttl)

    or_request-cached :
        (edges : List (ServiceGraphEdge F)) (x : Option (List (ServiceGraphEdge F)) × W)
        → x.0 ≡ some edges
        → (or_request c tenant_id start end x).0 ≡ reply edges
    unfolding or_request
    or_request-cached edges (none, w) h = absurd (ground arith)
    or_request-cached edges (some found, w) h = ap reply (ground arith)

    fetch_service_graph-first :
        (edges : List (ServiceGraphEdge F)) (w w1 w2 : W)
        → cached_edges c key w ≡ (none, w1)
        → c.backend.post_graph tenant_id start end w1 ≡ (reply edges, w2)
        → fetch_service_graph c tenant_id start end w ≡ (
          some_of "mirador-core service graph returned no edges" edges,
          cache_edges c key edges w2,
        )
    unfolding or_request request_graph graph_answer
    fetch_service_graph-first edges w w1 w2 miss post =
        fetch_service_graph-cached w
        ∙ ap (or_request c tenant_id start end) miss
        ∙ ap (graph_answer c true key) post

  -- If the cache keeps the edges of a graph that is requested, a second call for the same tenant and
  -- window answers the same edges from the cache. This holds for a graph without edges as well: the
  -- first call says that there are none, which is an error, and the second one answers none.
  pub fetch_service_graph-twice :
      (tenant_id : String) (start end : Time) (edges : List (ServiceGraphEdge F)) (w w1 w2 : W)
      → str_eq c.base_url "" ≡ false
      → ltb_ℤ (pos 0) c.service_graph_ttl ≡ true
      → cached_edges c (service_graph_cache_key tenant_id start end) w ≡ (none, w1)
      → c.backend.post_graph tenant_id start end w1 ≡ (reply edges, w2)
      → IsKept (service_graph_cache_key tenant_id start end) edges w2
      → let first = fetch_service_graph c tenant_id start end w in
        (first.0 ≡ some_of "mirador-core service graph returned no edges" edges)
        × ((fetch_service_graph c tenant_id start end first.1).0 ≡ reply edges)
  fetch_service_graph-twice tenant_id start end edges w w1 w2 url ttl miss post kept =
      let first = fetch_service_graph-first tenant_id start end url ttl edges w w1 w2 miss post in
      let key = service_graph_cache_key tenant_id start end in
      (
        ap (λ x. x.0) first,
        ap (λ x. (fetch_service_graph c tenant_id start end x.1).0) first
            ∙ ap (λ x. x.0)
                (fetch_service_graph-cached tenant_id start end url ttl
                  (cache_edges c key edges w2))
            ∙ or_request-cached tenant_id start end url ttl edges _
                (cached_edges-cache_edges key edges w2 kept),
      )
