-- ===== src/Weaviate/Resilience.antt =====
-- internal/repo/weaviate_repo.go: `SimilarIncidents` and `FetchPatterns` where the store or the cache
-- does not work.
use mirador_rca.Prelude.{
  true, false, ◌≡◌, refl, Option, none, some, String, List, str_eq, ◌==◌, Bool-cases, inl, inr,
}
use mirador_rca.Prelude.Int.{pos, ltb_ℤ}
use mirador_rca.Prelude.Text.{◌<>◌}
use mirador_rca.Prelude.Outcome.{Reply, reply, failure}
use mirador_rca.Http.{HttpResponse}
use mirador_rca.Weaviate.{Outside, WeaviateRepo, post}
use mirador_rca.Weaviate.Asking.{
  Lookup, query_payload, decode_rows, recall, results_or, answered, ask, or_ask, look_up,
}

module _ {W D F A : Type 0} (x : Outside W D F) (r : WeaviateRepo W D) (l : Lookup D F A) where
  -- The store has no answer in the state `w`: it is not configured, or, after the cache has none either,
  -- the call fails, which leaves `w'`.
  pub data IsDown (w w' : W) : Type 0 where
    unconfigured : str_eq r.endpoint "" ≡ true → w' ≡ w → IsDown w w'
    uncached :
        (e : String)
        → str_eq r.endpoint "" ≡ false
        → ltb_ℤ (pos 0) l.ttl ≡ false
        → post x r "/v1/graphql" (x.marshal (query_payload l.query)) w ≡ (reply (failure e), w')
        → IsDown w w'
    missed :
        (e : String) (w1 : W)
        → str_eq r.endpoint "" ≡ false
        → ltb_ℤ (pos 0) l.ttl ≡ true
        → recall r l w ≡ (none, w1)
        → post x r "/v1/graphql" (x.marshal (query_payload l.query)) w1 ≡ (reply (failure e), w')
        → IsDown w w'

  pub look_up-IsDown :
      (w w' : W) → IsDown w w' → look_up x r l w ≡ (reply (l.stand_in (x.now w')), w')
  unfolding look_up or_ask ask answered
  look_up-IsDown w w' (unconfigured url same) = rw (url, same) refl
  look_up-IsDown w w' (uncached e url ttl p) = rw (url, ttl, p) refl
  look_up-IsDown w w' (missed e w1 url ttl miss p) = rw (url, ttl, miss, p) refl

  -- Both can be sent: the payload and the request.
  abbrev pub CanAsk : Type 0
  CanAsk =
      ((bytes : D) × (x.marshal (query_payload l.query) ≡ reply bytes))
      × (x.new_request (r.endpoint <> "/v1/graphql") ≡ reply tt)

  results_or-total :
      (y : Reply (List A)) (w : W) → (rows : List A) × ((results_or x r l y w).0 ≡ reply rows)
  unfolding results_or
  results_or-total (failure e) w = (_, refl)
  results_or-total (reply rows) w = (rows, refl)

  answered-total :
      (y : Reply (HttpResponse D)) (w : W) → (rows : List A) × ((answered x r l y w).0 ≡ reply rows)
  unfolding answered
  answered-total (failure e) w = (_, refl)
  answered-total (reply response) w = elim (Bool-cases (response.status == 200)) [
    | inl good ↦ rw good (results_or-total (decode_rows x l.rows (x.decode response.body)) w)
    | inr bad ↦ rw bad (_, refl)
  ]

  ask-total : CanAsk → (w : W) → (rows : List A) × ((ask x r l w).0 ≡ reply rows)
  unfolding ask post
  ask-total ((bytes, m), n) w = rw (m, n) (answered-total _ _)

  or_ask-total :
      CanAsk → (y : Option (List A) × W) → (rows : List A) × ((or_ask x r l y).0 ≡ reply rows)
  unfolding or_ask
  or_ask-total can (some rows, w) = (rows, refl)
  or_ask-total can (none, w) = ask-total can w

  -- However the store and the cache answer, there is a reply.
  pub look_up-total : CanAsk → (w : W) → (rows : List A) × ((look_up x r l w).0 ≡ reply rows)
  unfolding look_up
  look_up-total can w = elim (Bool-cases (str_eq r.endpoint "")) [
    | inl nowhere ↦ rw nowhere (_, refl)
    | inr url ↦ elim (Bool-cases (ltb_ℤ (pos 0) l.ttl)) [
      | inl caching ↦ rw (url, caching) (or_ask-total can (recall r l w))
      | inr plain ↦ rw (url, plain) (ask-total can w)
    ]
  ]
