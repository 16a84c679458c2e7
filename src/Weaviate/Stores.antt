-- ===== src/Weaviate/Stores.antt =====
-- internal/repo/weaviate_repo.go: what comes of storing one object, and of storing patterns in a row.
use mathlib.Core.Path.{subst}
use mirador_rca.Prelude.{
  ◌≤◌, ◌<◌, ◌≡◌, refl, sym, ◌⊎◌, inl, inr, ◌||◌, String, ltb, leb, arith, Bool-cases,
}
use mirador_rca.Prelude.Text.{◌<>◌}
use mirador_rca.Prelude.Outcome.{Reply, reply, failure, reply-cases, Reply-cases}
use mirador_rca.Http.{HttpResponse}
use mirador_rca.Weaviate.{Outside, WeaviateRepo, post, request_to}
use mirador_rca.Weaviate.Writing.{stored_or, store_object}

module _ {W D F : Type 0} (x : Outside W D F) (r : WeaviateRepo W D) (context : String)
    (body : Reply D) (w : W) where
  abbrev objects : String
  objects = r.endpoint <> "/v1/objects"

  -- The object is sent once, and the answer is a success.
  pub record Accepted (w' : W) : Type 0 where
    pub bytes : D
    pub response : HttpResponse D
    pub marshalled : body ≡ reply bytes
    pub requested : x.new_request objects ≡ reply tt
    pub sent : x.send (request_to r "/v1/objects" bytes) w ≡ (reply response, w')
    pub success : (200 ≤ response.status) × (response.status < 300)

  -- The first step that fails, and its error; no object is sent before the third step.
  pub data Refused (e : String) (w' : W) : Type 0 where
    not_marshalled : body ≡ failure e → w' ≡ w → Refused e w'
    not_requested :
        (bytes : D) → body ≡ reply bytes → x.new_request objects ≡ failure e → w' ≡ w → Refused e w'
    not_sent :
        (bytes : D)
        → body ≡ reply bytes
        → x.send (request_to r "/v1/objects" bytes) w ≡ (failure e, w')
        → Refused e w'
    no_success :
        (bytes : D) (response : HttpResponse D)
        → body ≡ reply bytes
        → x.send (request_to r "/v1/objects" bytes) w ≡ (reply response, w')
        → (response.status < 200) ⊎ (300 ≤ response.status)
        → e ≡ context <> (": " <> x.trimmed response.body)
        → Refused e w'

  abbrev pub IsStoring : Reply (Unit {0}) × W → Type 0
  IsStoring y =
      (Accepted y.1 × (y.0 ≡ reply tt)) ⊎ ((e : String) × Refused e y.1 × (y.0 ≡ failure e))

  IsStoring-Accepted :
      (y : Reply (Unit {0}) × W) (w' : W) → y ≡ (reply tt, w') → Accepted w' → IsStoring y
  IsStoring-Accepted y w' e a = subst IsStoring (sym e) (inl (a, refl))

  IsStoring-Refused :
      (y : Reply (Unit {0}) × W) (e : String) (w' : W)
      → y ≡ (failure e, w')
      → Refused e w'
      → IsStoring y
  IsStoring-Refused y e w' h a = subst IsStoring (sym h) (inr (e, a, refl))

  -- An answer with a status.
  IsStoring-answer :
      (bytes : D) (response : HttpResponse D) (w' : W)
      → body ≡ reply bytes
      → x.new_request objects ≡ reply tt
      → x.send (request_to r "/v1/objects" bytes) w ≡ (reply response, w')
      → IsStoring (stored_or x context (reply response), w')
  IsStoring-answer bytes response w' m n s =
      elim (Bool-cases (ltb response.status 200 || leb 300 response.status)) [
        | inl bad ↦
            IsStoring-Refused _ _ w' (rw bad refl)
              (no_success bytes response m s (ground arith) refl)
        | inr good ↦ IsStoring-Accepted _ w' (rw good refl) (record {
          bytes = bytes;
          response = response;
          marshalled = m;
          requested = n;
          sent = s;
          success = ground arith;
        })
      ]

  pub store_object_lem : IsStoring (store_object x r context body w)
  unfolding store_object post
  store_object_lem = elim (Reply-cases body) [
    | inr (e, m) ↦ IsStoring-Refused _ e w (rw m refl) (not_marshalled m refl)
    | inl (bytes, m) ↦ elim (Reply-cases (x.new_request objects)) [
      | inr (e, n) ↦ IsStoring-Refused _ e w (rw (m, n) refl) (not_requested bytes m n refl)
      | inl (u, n) ↦ elim (reply-cases (x.send (request_to r "/v1/objects" bytes) w)) [
        | inr (e, w', s) ↦ IsStoring-Refused _ e w' (rw (m, n, s) refl) (not_sent bytes m s)
        | inl (response, w', s) ↦
            subst IsStoring (sym (rw (m, n, s) refl)) (IsStoring-answer bytes response w' m n s)
      ]
    ]
  ]
