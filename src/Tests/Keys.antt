-- ===== src/Tests/Keys.antt =====
-- The provider with a server that keeps its values in a function.
use mirador_rca.Prelude.{
  zero, suc, ◌<◌, ◌≡◌, ◌≢◌, refl, sym, inl, inr, Bool, true, false, Option, none, some, List, [],
  ◌∷◌, ◌++◌, ltb, length, if◌then◌else◌, Bool-cases, arith,
}
use mirador_rca.Prelude.Int.{pos, negsuc}
use mirador_rca.Prelude.Text.{codes, codes_eq}
use mirador_rca.Model.{Duration}
use mirador_rca.Tests.Caching.{config}
use mirador_rca.Cache.Resp.{Bytes, done, broken, RespReply, integer, itoa, decimal, int_limit}
use mirador_rca.Cache.Valkey.{ValkeyConfig, Network, ttl_args, get, set, set_nx, del}
use mirador_rca.Cache.Valkey.Replies.{talking}
use mirador_rca.Cache.Valkey.Served.{commands_of, encode_all, after, peer_of}
use mirador_rca.Cache.Valkey.Talking.{ok_reply, codes_eq_refl, Connected}
use mirador_rca.Cache.Valkey.Mapping.{
  found, Stores, Removes, StoresOnce, IsKeyValue, IsSendable, value_of, provider_lem,
}

abbrev Values : Type 0
Values = Bytes → Option Bytes

abbrev kept : Option Bytes → Option Bytes
kept none = none
kept (some v) = if ltb (length v) int_limit then some v else none

abbrev lookup : Values → Bytes → Option Bytes
lookup s key = kept (s key)

abbrev with_value : Bytes → Option Bytes → Values → Values
with_value key v s k = if codes_eq k key then v else s k

-- Whether the arguments behind a value end in "NX".
abbrev has_flag : List Bytes → Bool
has_flag [] = false
has_flag (a ∷ []) = true
has_flag (a ∷ b ∷ rest) = has_flag rest

abbrev stored_once : Bytes → Bytes → Values → Option Bytes → RespReply × Values
stored_once key value s none = (ok_reply, with_value key (some value) s)
stored_once key value s (some old) = (found none, s)

-- Credentials and databases are accepted, whatever they are.
abbrev run : List Bytes → Values → RespReply × Values
run (c ∷ key ∷ []) s =
    if codes_eq c (codes "GET")
    then (found (lookup s key), s)
    else if codes_eq c (codes "DEL")
    then (record { typ = integer; data_bytes = itoa 1 }, with_value key none s)
    else (ok_reply, s)
run (c ∷ key ∷ value ∷ rest) s =
    if codes_eq c (codes "SET")
    then (if has_flag rest
        then stored_once key value s (lookup s key)
        else (ok_reply, with_value key (some value) s))
    else (ok_reply, s)
run parts s = (ok_reply, s)

codes_eq_eq : (l m : Bytes) → codes_eq l m ≡ true → l ≡ m
unfolding codes_eq
codes_eq_eq [] [] h = refl
codes_eq_eq [] (y ∷ m) h = ground arith
codes_eq_eq (x ∷ l) [] h = ground arith
codes_eq_eq (x ∷ l) (y ∷ m) h = grind (arith, codes_eq_eq l m)

with_value-other :
    (key : Bytes) (v : Option Bytes) (s : Values) (k : Bytes)
    → k ≢ key
    → lookup (with_value key v s) k ≡ lookup s k
with_value-other key v s k other = elim (Bool-cases (codes_eq k key)) [
  | inl same ↦ absurd (other (codes_eq_eq k key same))
  | inr different ↦ rw different refl
]

Stores-with_value :
    (s : Values) (key value : Bytes)
    → length value < int_limit
    → Stores lookup s key value (with_value key (some value) s)
Stores-with_value s key value fits =
    let small : ltb (length value) int_limit ≡ true = ground arith in
    (rw (codes_eq_refl key, small) refl, with_value-other key (some value) s)

kept_fits : (o : Option Bytes) (v : Bytes) → kept o ≡ some v → length v < int_limit
kept_fits none v h = ground arith
kept_fits (some x) v h = go (ltb (length x) int_limit) refl h
  where
    go :
        (b : Bool)
        → ltb (length x) int_limit ≡ b
        → (if b then some x else none) ≡ some v
        → length v < int_limit
    go true small h =
        let bound : length x < int_limit = ground arith in
        let same : x ≡ v = grind arith in rw (sym same) bound
    go false big h = absurd (ground arith)

has_flag-ttl_args : (ttl : Duration) → has_flag (ttl_args ttl) ≡ false
unfolding ttl_args
has_flag-ttl_args (pos zero) = refl
has_flag-ttl_args (pos (suc n)) = refl
has_flag-ttl_args (negsuc n) = refl

has_flag-nx : (ttl : Duration) → has_flag (ttl_args ttl ++ codes "NX" ∷ []) ≡ true
unfolding ttl_args
has_flag-nx (pos zero) = refl
has_flag-nx (pos (suc n)) = refl
has_flag-nx (negsuc n) = refl

server : IsKeyValue run lookup
unfolding codes_eq
server = record {
  fits = λ s key value h. kept_fits (s key) value h;
  got = λ s key. refl;
  put = λ s key value ttl h fits.
      rw (has_flag-ttl_args ttl) (refl, Stores-with_value s key value fits);
  put_new = λ s key value ttl h fits free.
      rw (has_flag-nx ttl, free) (refl, Stores-with_value s key value fits);
  put_old = λ s key value old ttl h taken. rw (has_flag-nx ttl, taken) refl;
  deleted = λ s key. (1, refl, (rw (codes_eq_refl key) refl, with_value-other key none s));
}

-- A configuration with a password and a database.
abbrev with_password : ValkeyConfig
with_password = record config { password = codes "secret"; db = pos 2 }

abbrev network : Network Values
network = record {
  expired = λ s. none;
  dial = λ cfg s. (done (talking (peer_of run s) (broken true) []), s);
  close = λ vc s. after run (commands_of vc.output) s;
  sleep = λ pause s. s;
}

connected : Connected run network with_password (λ s. s)
unfolding encode_all codes_eq itoa decimal
connected = record {
  live = λ s. refl;
  dialled = λ s. (broken true, s, refl, refl);
  closed = λ vc s. refl;
  small = (
    (omega arith, (omega arith, (omega arith, tt))),
    ((omega arith, (omega arith, (omega arith, tt))), tt),
  );
  accepted = ((λ s. (refl, refl)), ((λ s. (refl, refl)), tt));
}

abbrev key : Bytes
key = codes "patterns:a\r\n:b"

abbrev value : Bytes
value = codes "[$9]\r\n"

sendable : IsSendable key value (pos 600_000_000_000)
unfolding ttl_args itoa decimal
sendable = record {
  in_get = (omega arith, (omega arith, (omega arith, tt)));
  in_set =
      (omega arith, (omega arith, (omega arith, (omega arith, (omega arith, (omega arith, tt))))));
  in_set_nx = (
    omega arith,
    (omega arith, (omega arith, (omega arith, (omega arith, (omega arith, (omega arith, tt)))))),
  );
  in_del = (omega arith, (omega arith, (omega arith, tt)));
  fitting = omega arith;
  in_time = refl;
}

abbrev empty : Values
empty k = none

provider_lem_example :
    (((get network with_password key empty).0 ≡ value_of none)
      × ((get network with_password key empty).1 ≡ empty))
    × (((set network with_password key value (pos 600_000_000_000) empty).0 ≡ done tt)
        × Stores lookup empty key value
            (set network with_password key value (pos 600_000_000_000) empty).1)
    × StoresOnce lookup empty key value
        (set_nx network with_password key value (pos 600_000_000_000) empty).0
        (set_nx network with_password key value (pos 600_000_000_000) empty).1
    × (((del network with_password key empty).0 ≡ done tt)
        × Removes lookup empty key (del network with_password key empty).1)
provider_lem_example =
    provider_lem server network with_password (λ s. s) connected key value (pos 600_000_000_000)
      sendable empty
