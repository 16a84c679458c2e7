-- ===== src/Weaviate/Client.antt =====
-- internal/repo/weaviate_repo.go as the clients see it: the interfaces of internal/engine/pipeline.go,
-- internal/services/rca_service.go and internal/patterns/miner.go that a repository fills.
use mirador_rca.Prelude.{Option}
use mirador_rca.Double.{Double}
use mirador_rca.Engine.Pipeline.{WeaviateClient}
use mirador_rca.Miner.{Store}
use mirador_rca.Service.Handlers.{HistoryRepo}
use mirador_rca.Weaviate.{Outside, WeaviateRepo}
use mirador_rca.Weaviate.Writing.{store_patterns, store_feedback, store_correlation}
use mirador_rca.Weaviate.Asking.{similar_incidents, fetch_patterns}
use mirador_rca.Weaviate.Listing.{list_correlations}

module _ {W D F : Type 0} ⦃d : Double F⦄ (x : Outside W D F) (r : Option (WeaviateRepo W D)) where
  abbrev pub weaviate_client : WeaviateClient W F
  weaviate_client = record {
    similar_incidents = similar_incidents x r;
    store_correlation = store_correlation x r;
  }

  abbrev pub history_repo : HistoryRepo W F
  history_repo = record {
    list_correlations = list_correlations x r;
    fetch_patterns = fetch_patterns x r;
    store_feedback = store_feedback x r;
  }

  abbrev pub pattern_store : Store F W
  pattern_store = store_patterns x r
