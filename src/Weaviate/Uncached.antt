-- ===== src/Weaviate/Uncached.antt =====
-- internal/repo/weaviate_repo.go: a repository without a cache.
use mirador_rca.Prelude.{
  ◌≡◌, refl, sym, ap, ◌∙◌, none, some, String, List, [], ◌∷◌, str_eq, ◌==◌, Bool-cases,
  Option-cases, inl, inr, if◌then◌else◌,
}
use mirador_rca.Prelude.Int.{ℤ, pos, ltb_ℤ}
use mirador_rca.Prelude.Outcome.{Reply, reply, failure}
use mirador_rca.Double.{Double}
use mirador_rca.Model.{Duration}
use mirador_rca.Http.{HttpResponse, and_then}
use mirador_rca.Weaviate.{Outside, WeaviateRepo, post, new_weaviate_repo}
use mirador_rca.Weaviate.Asking.{
  Lookup, query_payload, decode_rows, recall, unmarshal_cached, set_cached, remember, results_or,
  answered, ask, or_ask, look_up, similar_lookup, similar_incidents, patterns_lookup,
  fetch_patterns,
}

-- A repository without a cache, and one that does not mean to cache either.
module _ {W D : Type 0} (endpoint api_key : String) (timeout : Duration) where
  abbrev pub plain : WeaviateRepo W D
  plain = new_weaviate_repo endpoint api_key timeout none (pos 0) (pos 0)

  abbrev pub uncached : Duration → Duration → WeaviateRepo W D
  uncached similar_ttl pattern_ttl =
      new_weaviate_repo endpoint api_key timeout none similar_ttl pattern_ttl

abbrev untimed : {D F A : Type 0} → Lookup D F A → Lookup D F A
untimed l = record l { ttl = pos 0 }

module _ {W D F A : Type 0} (x : Outside W D F) (endpoint api_key : String) (timeout : Duration)
    (similar_ttl pattern_ttl : Duration) (l : Lookup D F A) where
  abbrev r : WeaviateRepo W D
  r = uncached endpoint api_key timeout similar_ttl pattern_ttl

  abbrev q : WeaviateRepo W D
  q = plain endpoint api_key timeout

  remember-uncached : (rows : List A) (w : W) → remember r l rows w ≡ w
  unfolding remember set_cached new_weaviate_repo
  remember-uncached [] w = refl
  remember-uncached (a ∷ rows) w = elim (Bool-cases (ltb_ℤ (pos 0) l.ttl)) [
    | inr off ↦ rw off refl
    | inl on ↦ elim (Option-cases (l.coding.marshal (a ∷ rows))) [
      | inl m ↦ rw (on, m) refl
      | inr (bytes, m) ↦ rw (on, m) refl
    ]
  ]

  remember-plain : (rows : List A) (w : W) → remember q (untimed l) rows w ≡ w
  unfolding remember
  remember-plain [] w = refl
  remember-plain (a ∷ rows) w = refl

  results_or-uncached :
      (y : Reply (List A)) (w : W) → results_or x r l y w ≡ results_or x q (untimed l) y w
  unfolding results_or
  results_or-uncached (failure e) w = refl
  results_or-uncached (reply rows) w =
      ap (λ v. (reply rows, v)) (remember-uncached rows w ∙ sym (remember-plain rows w))

  answered-uncached :
      (y : Reply (HttpResponse D)) (w : W) → answered x r l y w ≡ answered x q (untimed l) y w
  unfolding answered
  answered-uncached (failure e) w = refl
  answered-uncached (reply response) w = elim (Bool-cases (response.status == 200)) [
    | inl good ↦ rw good (results_or-uncached (decode_rows x l.rows (x.decode response.body)) w)
    | inr bad ↦ rw bad refl
  ]

  ask-uncached : (w : W) → ask x r l w ≡ ask x q (untimed l) w
  unfolding ask post new_weaviate_repo
  ask-uncached w = λ i.
      and_then (post x q "/v1/graphql" (x.marshal (query_payload l.query)) w)
        (λ y w'. answered-uncached y w' i)

  recall-uncached : (w : W) → recall r l w ≡ (none, w)
  unfolding recall unmarshal_cached new_weaviate_repo
  recall-uncached w = refl

  or_ask-uncached : (w : W) → or_ask x r l (recall r l w) ≡ ask x r l w
  unfolding or_ask
  or_ask-uncached w = ap (or_ask x r l) (recall-uncached w)

  pub look_up-uncached : (w : W) → look_up x r l w ≡ look_up x q (untimed l) w
  unfolding look_up new_weaviate_repo
  look_up-uncached w = elim (Bool-cases (str_eq r.endpoint "")) [
    | inl nowhere ↦ rw nowhere refl
    | inr url ↦ rw url (looked_up w)
  ]
    where
      looked_up :
          (w : W)
          → (if ltb_ℤ (pos 0) l.ttl then or_ask x r l (recall r l w) else ask x r l w)
            ≡ ask x q (untimed l) w
      looked_up w = elim (Bool-cases (ltb_ℤ (pos 0) l.ttl)) [
        | inl on ↦ rw on (or_ask-uncached w ∙ ask-uncached w)
        | inr off ↦ rw off (ask-uncached w)
      ]

module _ {W D F : Type 0} ⦃d : Double F⦄ (x : Outside W D F) (endpoint api_key : String)
    (timeout : Duration) (similar_ttl pattern_ttl : Duration) where
  -- A repository that is built without a cache answers both questions in every state as one that does
  -- not mean to cache at all, whatever the times to live are.
  pub uncached_lem :
      let r = uncached {W = W} {D = D} endpoint api_key timeout similar_ttl pattern_ttl in
      let q = plain {W = W} {D = D} endpoint api_key timeout in
      ((tenant_id : String) (symptoms : List String) (limit : ℤ) (w : W)
        → similar_incidents x (some r) tenant_id symptoms limit w
          ≡ similar_incidents x (some q) tenant_id symptoms limit w)
      × ((tenant_id service : String) (w : W)
          → fetch_patterns x (some r) tenant_id service w
            ≡ fetch_patterns x (some q) tenant_id service w)
  unfolding similar_incidents fetch_patterns new_weaviate_repo
  uncached_lem =
      let r = uncached {W = W} {D = D} endpoint api_key timeout similar_ttl pattern_ttl in
      (
        λ tenant_id symptoms limit w.
            look_up-uncached x endpoint api_key timeout similar_ttl pattern_ttl
              (similar_lookup x r tenant_id symptoms limit) w,
        λ tenant_id service w.
            look_up-uncached x endpoint api_key timeout similar_ttl pattern_ttl
              (patterns_lookup x r tenant_id service) w,
      )
