-- ===== src/Cache/Valkey/Mapping.antt =====
-- internal/cache/valkey.go, `Get`, `Set`, `SetNX` and `Del`: what the provider is to its callers.
use mathlib.Core.Path.{subst}
use mirador_rca.Prelude.{
  ℕ, ◌<◌, ◌≡◌, ◌≢◌, ◌⊎◌, refl, sym, ap, ◌∙◌, inl, inr, Bool, true, false, ◌||◌, Option, none, some,
  List, [], ◌∷◌, ◌++◌, length, Option-cases, arith,
}
use mirador_rca.Prelude.Int.{pos, leb_ℤ}
use mirador_rca.Prelude.Text.{codes}
use mirador_rca.Model.{Duration}
use mirador_rca.Cache.Resp.{
  Bytes, Result, done, failed, cache_miss, RespReply, bulk_string, integer, nil_reply, int_limit,
  itoa,
}
use mirador_rca.Cache.Resp.Lines.{itoa-is_line}
use mirador_rca.Cache.Resp.Server.{IsCarried}
use mirador_rca.Cache.Valkey.{
  ValkeyConfig, Network, millisecond, ttl_args, get_answer, set_answer, set_nx_answer, get, set,
  set_nx, del, should_retry,
}
use mirador_rca.Cache.Valkey.Attempts.{may_retry}
use mirador_rca.Cache.Valkey.Served.{IsSmall}
use mirador_rca.Cache.Valkey.Talking.{ok_reply, ok_reply-IsCarried, codes_eq_refl, Connected}
use mirador_rca.Cache.Valkey.Calls.{with_conn-Answered}

-- The four commands.
abbrev pub get_parts : Bytes → List Bytes
get_parts key = codes "GET" ∷ key ∷ []

abbrev pub set_parts : Bytes → Bytes → Duration → List Bytes
set_parts key value ttl = codes "SET" ∷ key ∷ value ∷ ttl_args ttl

abbrev pub set_nx_parts : Bytes → Bytes → Duration → List Bytes
set_nx_parts key value ttl = codes "SET" ∷ key ∷ value ∷ (ttl_args ttl ++ codes "NX" ∷ [])

abbrev pub del_parts : Bytes → List Bytes
del_parts key = codes "DEL" ∷ key ∷ []

-- No time to live, or at least a millisecond.
abbrev pub is_ttl : Duration → Bool
is_ttl ttl = leb_ℤ ttl (pos 0) || leb_ℤ (pos millisecond) ttl

abbrev pub found : Option Bytes → RespReply
found none = record { typ = nil_reply; data_bytes = [] }
found (some value) = record { typ = bulk_string; data_bytes = value }

module _ {S : Type 0} (lookup : S → Bytes → Option Bytes) where
  -- The second state has the value under the key, and else what the first one has.
  abbrev pub Stores : S → Bytes → Bytes → S → Type 0
  Stores s key value s' =
      (lookup s' key ≡ some value) × ((k : Bytes) → k ≢ key → lookup s' k ≡ lookup s k)

  abbrev pub Removes : S → Bytes → S → Type 0
  Removes s key s' = (lookup s' key ≡ none) × ((k : Bytes) → k ≢ key → lookup s' k ≡ lookup s k)

  -- Under a key that is free the value is stored, and under another one nothing changes.
  abbrev pub StoresOnce : S → Bytes → Bytes → Result Bool → S → Type 0
  StoresOnce s key value result s' =
      ((lookup s key ≡ none) × (result ≡ done true) × Stores s key value s')
      ⊎ ((lookup s key ≢ none) × (result ≡ done false) × (s' ≡ s))

-- What a server says of its commands: it keeps values under keys.
pub record IsKeyValue {S : Type 0} (run : List Bytes → S → RespReply × S)
    (lookup : S → Bytes → Option Bytes) : Type 0 where
  pub fits : (s : S) (key value : Bytes) → lookup s key ≡ some value → length value < int_limit
  pub got : (s : S) (key : Bytes) → run (get_parts key) s ≡ (found (lookup s key), s)
  pub put :
      (s : S) (key value : Bytes) (ttl : Duration)
      → is_ttl ttl ≡ true
      → length value < int_limit
      → let y = run (set_parts key value ttl) s in (y.0 ≡ ok_reply) × Stores lookup s key value y.1
  pub put_new :
      (s : S) (key value : Bytes) (ttl : Duration)
      → is_ttl ttl ≡ true
      → length value < int_limit
      → lookup s key ≡ none
      → let y = run (set_nx_parts key value ttl) s in
        (y.0 ≡ ok_reply) × Stores lookup s key value y.1
  pub put_old :
      (s : S) (key value old : Bytes) (ttl : Duration)
      → is_ttl ttl ≡ true
      → lookup s key ≡ some old
      → run (set_nx_parts key value ttl) s ≡ (found none, s)
  pub deleted :
      (s : S) (key : Bytes)
      → let y = run (del_parts key) s in
        (n : ℕ) × (y.0 ≡ record { typ = integer; data_bytes = itoa n }) × Removes lookup s key y.1

-- A key and a value that a command can hold.
pub record IsSendable (key value : Bytes) (ttl : Duration) : Type 0 where
  pub in_get : IsSmall (get_parts key)
  pub in_set : IsSmall (set_parts key value ttl)
  pub in_set_nx : IsSmall (set_nx_parts key value ttl)
  pub in_del : IsSmall (del_parts key)
  pub fitting : length value < int_limit
  pub in_time : is_ttl ttl ≡ true

abbrev pub value_of : Option Bytes → Result Bytes
value_of none = failed cache_miss
value_of (some value) = done value

get_answer-found : (o : Option Bytes) → get_answer (found o) ≡ value_of o
unfolding get_answer
get_answer-found none = refl
get_answer-found (some value) = refl

get_answer-fatal : (o : Option Bytes) → may_retry (get_answer (found o)) ≡ false
unfolding get_answer should_retry
get_answer-fatal none = refl
get_answer-fatal (some value) = refl

set_answer-ok : set_answer ok_reply ≡ done tt
unfolding set_answer
set_answer-ok = rw (codes_eq_refl _) refl

set_nx_answer-ok : set_nx_answer ok_reply ≡ done true
unfolding set_nx_answer
set_nx_answer-ok = refl

set_nx_answer-found : set_nx_answer (found none) ≡ done false
unfolding set_nx_answer
set_nx_answer-found = refl

module _ {S : Type 0} {run : List Bytes → S → RespReply × S} {lookup : S → Bytes → Option Bytes}
    (server : IsKeyValue run lookup) {W : Type 0} (net : Network W) (cfg : ValkeyConfig)
    (state : W → S) (connected : Connected run net cfg state) (key value : Bytes) (ttl : Duration)
    (sendable : IsSendable key value ttl) (w : W) where
  found-IsCarried : (o : Option Bytes) → lookup (state w) key ≡ o → IsCarried (found o)
  found-IsCarried none e = refl
  found-IsCarried (some v) e = server.fits (state w) key v e

  get_lem :
      ((get net cfg key w).0 ≡ value_of (lookup (state w) key))
      × (state (get net cfg key w).1 ≡ state w)
  unfolding get
  get_lem =
      let e = server.got (state w) key in
      let o = lookup (state w) key in
      let (answered, same) =
        with_conn-Answered run net cfg state connected "GET" (key ∷ []) get_answer w sendable.in_get
          (subst (λ y. IsCarried y.0) (sym e) (found-IsCarried o refl))
          (ap (λ y. may_retry (get_answer y.0)) e ∙ get_answer-fatal o) in
      (answered ∙ ap (λ y. get_answer y.0) e ∙ get_answer-found o, same ∙ ap (λ y. y.1) e)

  set_lem :
      ((set net cfg key value ttl w).0 ≡ done tt)
      × Stores lookup (state w) key value (state (set net cfg key value ttl w).1)
  unfolding set
  set_lem =
      let (e, stores) = server.put (state w) key value ttl sendable.in_time sendable.fitting in
      let (answered, same) =
        with_conn-Answered run net cfg state connected "SET" (key ∷ value ∷ ttl_args ttl) set_answer
          w sendable.in_set (subst IsCarried (sym e) ok_reply-IsCarried)
          (ap (λ y. may_retry (set_answer y)) e ∙ ap may_retry set_answer-ok) in
      (
        answered ∙ ap set_answer e ∙ set_answer-ok,
        subst (Stores lookup (state w) key value) (sym same) stores,
      )

  del_lem :
      ((del net cfg key w).0 ≡ done tt) × Removes lookup (state w) key (state (del net cfg key w).1)
  unfolding del
  del_lem =
      let (n, e, removes) = server.deleted (state w) key in
      let (answered, same) =
        with_conn-Answered run net cfg state connected "DEL" (key ∷ []) (λ reply. done tt) w
          sendable.in_del (subst IsCarried (sym e) (itoa-is_line n)) refl in
      (answered, subst (Removes lookup (state w) key) (sym same) removes)

  set_nx_lem :
      StoresOnce lookup
        (state w)
        key
        value
        (set_nx net cfg key value ttl w).0
        (state (set_nx net cfg key value ttl w).1)
  unfolding set_nx
  set_nx_lem = elim (Option-cases (lookup (state w) key)) [
    | inl free ↦
        let (e, stores) =
          server.put_new (state w) key value ttl sendable.in_time sendable.fitting free in
        let (answered, same) =
          with_conn-Answered run net cfg state connected "SET"
            (key ∷ value ∷ (ttl_args ttl ++ codes "NX" ∷ [])) set_nx_answer w sendable.in_set_nx
            (subst IsCarried (sym e) ok_reply-IsCarried)
            (ap (λ y. may_retry (set_nx_answer y)) e ∙ ap may_retry set_nx_answer-ok) in
        inl (
          free,
          answered ∙ ap set_nx_answer e ∙ set_nx_answer-ok,
          subst (Stores lookup (state w) key value) (sym same) stores,
        )
    | inr (old, taken) ↦
        let e = server.put_old (state w) key value old ttl sendable.in_time taken in
        let (answered, same) =
          with_conn-Answered run net cfg state connected "SET"
            (key ∷ value ∷ (ttl_args ttl ++ codes "NX" ∷ [])) set_nx_answer w sendable.in_set_nx
            (subst (λ y. IsCarried y.0) (sym e) refl)
            (ap (λ y. may_retry (set_nx_answer y.0)) e ∙ ap may_retry set_nx_answer-found) in
        inr (
          λ free. ground arith,
          answered ∙ ap (λ y. set_nx_answer y.0) e ∙ set_nx_answer-found,
          same ∙ ap (λ y. y.1) e,
        )
  ]

  -- With a server that keeps values under keys, the provider is such a map: `Get` answers the value under
  -- the key, or a miss, and changes nothing; `Set` puts the value under the key, and `Del` removes it, and
  -- both leave every other key alone; `SetNX` does what `Set` does where the key is free, and says so, and
  -- else changes nothing. This holds for keys and values of any bytes that a command can hold, for every
  -- configuration whose credentials the server accepts, and for a time to live of none or at least a
  -- millisecond, as long as the connections last and the context does not expire.
  pub provider_lem :
      (((get net cfg key w).0 ≡ value_of (lookup (state w) key))
        × (state (get net cfg key w).1 ≡ state w))
      × (((set net cfg key value ttl w).0 ≡ done tt)
          × Stores lookup (state w) key value (state (set net cfg key value ttl w).1))
      × StoresOnce lookup
          (state w)
          key
          value
          (set_nx net cfg key value ttl w).0
          (state (set_nx net cfg key value ttl w).1)
      × (((del net cfg key w).0 ≡ done tt)
          × Removes lookup (state w) key (state (del net cfg key w).1))
  provider_lem = (get_lem, set_lem, set_nx_lem, del_lem)
