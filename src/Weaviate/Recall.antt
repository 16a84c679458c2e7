-- ===== src/Weaviate/Recall.antt =====
-- internal/repo/weaviate_repo.go: what the cache does for `SimilarIncidents` and `FetchPatterns`.
use mathlib.Core.List.{Perm}
use mirador_rca.Prelude.{
  true, false, ◌≡◌, refl, sym, ap, ◌∙◌, none, some, String, List, ◌∷◌, str_eq, arith,
}
use mirador_rca.Prelude.Int.{ℤ, pos, ltb_ℤ}
use mirador_rca.Prelude.Outcome.{Reply, reply, failure}
use mirador_rca.Double.{Double}
use mirador_rca.Model.{Duration, CorrelationResult}
use mirador_rca.Cache.Provider.{Provider}
use mirador_rca.Cache.Provider.{Coding}
use mirador_rca.Weaviate.{Outside, WeaviateRepo, post}
use mirador_rca.Weaviate.Asking.{
  Lookup, query_payload, decode_rows, recall, unmarshal_cached, set_cached, remember, results_or,
  answered, ask, or_ask, look_up, similar_lookup, similar_incidents,
}
use mirador_rca.Weaviate.Keys.{cache_similar_incidents_key-perm}

-- A cache that has what was last put under a key.
pub record IsCache {W D : Type 0} (c : Provider W D) : Type 0 where
  pub get_set :
      (key : String) (value : D) (ttl : Duration) (w : W)
      → (c.get key (c.set key value ttl w).1).0 ≡ reply value

-- A coding that gives a value back.
abbrev pub Codes : {D A : Type 0} → Coding D A → A → Type 0
Codes {D} coding a =
    (bytes : D) × (coding.marshal a ≡ some bytes) × (coding.unmarshal bytes ≡ some a)

module _ {W D F A : Type 0} (x : Outside W D F) (r : WeaviateRepo W D) where
  -- The store answers a question in the state `w` with rows, which leaves `w'`.
  pub record Answers (l : Lookup D F A) (rows : List A) (w w' : W) : Type 0 where
    pub body : D
    pub sent :
        post x r "/v1/graphql" (x.marshal (query_payload l.query)) w
        ≡ (reply (reply (record { status = 200; body = body })), w')
    pub read : decode_rows x l.rows (x.decode body) ≡ reply rows

  -- A repository that is configured, with a time to live for what it looks up.
  abbrev pub IsCaching : Lookup D F A → Type 0
  IsCaching l = (str_eq r.endpoint "" ≡ false) × (ltb_ℤ (pos 0) l.ttl ≡ true)

  look_up-IsCaching :
      (l : Lookup D F A) (w : W) → IsCaching l → look_up x r l w ≡ or_ask x r l (recall r l w)
  unfolding look_up
  look_up-IsCaching l w (url, ttl) = rw (url, ttl) refl

  ask-Answers :
      (l : Lookup D F A) (rows : List A) (w w' : W)
      → Answers l rows w w'
      → ask x r l w ≡ (reply rows, remember r l rows w')
  unfolding ask answered results_or
  ask-Answers l rows w w' a = rw (a.sent, a.read) refl

  remember-some :
      (l : Lookup D F A) (row : A) (rows : List A) (bytes : D) (w : W)
      → IsCaching l
      → l.coding.marshal (row ∷ rows) ≡ some bytes
      → remember r l (row ∷ rows) w ≡ (r.cache.set l.key bytes l.ttl w).1
  unfolding remember set_cached
  remember-some l row rows bytes w (url, ttl) m = rw (ttl, m) refl

  or_ask-cached :
      (l : Lookup D F A) (rows : List A) (bytes : D) (y : Reply D × W)
      → y.0 ≡ reply bytes
      → l.coding.unmarshal bytes ≡ some rows
      → (or_ask x r l (unmarshal_cached l y)).0 ≡ reply rows
  unfolding or_ask unmarshal_cached
  or_ask-cached l rows bytes (failure e, w) h u = absurd (ground arith)
  or_ask-cached l rows bytes (reply found, w) h u =
      let same : found ≡ bytes = ground arith in rw (same, u) refl

  -- A question that is asked after another one with the same key is answered from the cache.
  pub look_up-twice :
      (l l' : Lookup D F A) (row : A) (rows : List A) (w w1 w2 : W)
      → IsCache r.cache
      → Codes l.coding (row ∷ rows)
      → IsCaching l
      → l'.key ≡ l.key
      → l'.ttl ≡ l.ttl
      → l'.coding ≡ l.coding
      → recall r l w ≡ (none, w1)
      → Answers l (row ∷ rows) w1 w2
      → let first = look_up x r l w in
        (first.0 ≡ reply (row ∷ rows)) × ((look_up x r l' first.1).0 ≡ reply (row ∷ rows))
  unfolding recall or_ask
  look_up-twice l l' row rows w w1 w2 c (bytes, m, u) caching key ttl coding miss a =
      let asked : look_up x r l w ≡ (reply (row ∷ rows), (r.cache.set l.key bytes l.ttl w2).1) =
        look_up-IsCaching l w caching
        ∙ ap (or_ask x r l) miss
        ∙ ask-Answers l (row ∷ rows) w1 w2 a
        ∙ ap (λ v. (reply (row ∷ rows), v)) (remember-some l row rows bytes w2 caching m) in
      (
        ap (λ y. y.0) asked,
        ap (λ y. (look_up x r l' y.1).0) asked
            ∙ ap (λ y. y.0) (look_up-IsCaching l' _ (caching.0, rw ttl caching.1))
            ∙ or_ask-cached l' (row ∷ rows) bytes _ (rw key (c.get_set l.key bytes l.ttl w2))
                (rw coding u),
      )

module _ {W D F : Type 0} ⦃d : Double F⦄ (x : Outside W D F) (r : WeaviateRepo W D) where
  -- With a cache that works, a question about similar incidents that the store has answered with some
  -- incidents is answered with the same ones from the cache when it is asked again, also with the
  -- symptoms in another order.
  pub similar_incidents-twice :
      (tenant_id : String) (symptoms symptoms' : List String) (limit : ℤ)
      (found : CorrelationResult F) (others : List (CorrelationResult F)) (w w1 w2 : W)
      → Perm symptoms symptoms'
      → IsCache r.cache
      → Codes x.correlations (found ∷ others)
      → str_eq r.endpoint "" ≡ false
      → ltb_ℤ (pos 0) r.similar_ttl ≡ true
      → recall r (similar_lookup x r tenant_id symptoms limit) w ≡ (none, w1)
      → Answers x r (similar_lookup x r tenant_id symptoms limit) (found ∷ others) w1 w2
      → let first = similar_incidents x (some r) tenant_id symptoms limit w in
        (first.0 ≡ reply (found ∷ others))
        × ((similar_incidents x (some r) tenant_id symptoms' limit first.1).0
            ≡ reply (found ∷ others))
  unfolding similar_incidents
  similar_incidents-twice tenant_id symptoms symptoms' limit found others w w1 w2 p c coded url ttl
        miss a =
      look_up-twice x r (similar_lookup x r tenant_id symptoms limit)
        (similar_lookup x r tenant_id symptoms' limit) found others w w1 w2 c coded (url, ttl)
        (sym (cache_similar_incidents_key-perm tenant_id limit p)) refl refl miss a
