-- ===== src/Weaviate/Batch.antt =====
-- internal/repo/weaviate_repo.go, `StorePatterns`: which patterns are stored, and what is answered.
use mathlib.Core.Path.{subst}
use mirador_rca.Prelude.{◌≡◌, sym, inl, inr, false, some, String, List, [], ◌∷◌, str_eq}
use mirador_rca.Prelude.Outcome.{Reply, reply, failure}
use mirador_rca.Model.{FailurePattern}
use mirador_rca.Http.{and_then}
use mirador_rca.Weaviate.{Outside, WeaviateRepo}
use mirador_rca.Weaviate.Writing.{store_object, pattern_payload, store_each, store_patterns}
use mirador_rca.Weaviate.Stores.{Accepted, Refused, store_object_lem}

module _ {W D F : Type 0} (x : Outside W D F) (r : WeaviateRepo W D) (tenant_id : String) where
  abbrev pub body_of : FailurePattern F → W → Reply D
  body_of pattern w = x.marshal (pattern_payload x (x.now w) tenant_id pattern)

  abbrev pub context : String
  context = "store pattern failed"

  -- The patterns are stored one after the other, up to the first that is refused.
  pub data Batch : List (FailurePattern F) → W → Reply (Unit {0}) → W → Type 0 where
    all_stored : {w : W} → Batch [] w (reply tt) w
    stopped :
        {pattern : FailurePattern F} {patterns : List (FailurePattern F)} {w w' : W} {e : String}
        → Refused x r context (body_of pattern w) w e w'
        → Batch (pattern ∷ patterns) w (failure e) w'
    went_on :
        {pattern : FailurePattern F} {patterns : List (FailurePattern F)} {w w1 w' : W}
        {y : Reply (Unit {0})}
        → Accepted x r context (body_of pattern w) w w1
        → Batch patterns w1 y w'
        → Batch (pattern ∷ patterns) w y w'

  abbrev IsBatch : List (FailurePattern F) → W → Reply (Unit {0}) × W → Type 0
  IsBatch patterns w y = Batch patterns w y.0 y.1

  abbrev more : List (FailurePattern F) → Unit {0} → W → Reply (Unit {0}) × W
  more patterns _ w = store_each x r tenant_id patterns w

  store_each-Batch :
      (patterns : List (FailurePattern F)) (w : W)
      → IsBatch patterns w (store_each x r tenant_id patterns w)
  unfolding store_each
  store_each-Batch [] w = all_stored
  store_each-Batch (pattern ∷ patterns) w =
      let y = store_object x r context (body_of pattern w) w in
      elim (store_object_lem x r context (body_of pattern w) w) [
        | inl (a, done) ↦
            subst (λ z. IsBatch (pattern ∷ patterns) w (and_then (z, y.1) (more patterns)))
              (sym done) (went_on a (store_each-Batch patterns y.1))
        | inr (e, a, failed) ↦
            subst (λ z. IsBatch (pattern ∷ patterns) w (and_then (z, y.1) (more patterns)))
              (sym failed) (stopped a)
      ]

  -- With a store that is configured, the patterns are sent in their order, each once, and each after
  -- the one before it was accepted; the answer is a success exactly where all of them were, and the
  -- error of the first that was refused otherwise, after which nothing is sent.
  pub store_patterns_lem :
      (patterns : List (FailurePattern F)) (w : W)
      → str_eq r.endpoint "" ≡ false
      → let y = store_patterns x (some r) tenant_id patterns w in Batch patterns w y.0 y.1
  unfolding store_patterns
  store_patterns_lem patterns w url = rw url (store_each-Batch patterns w)
