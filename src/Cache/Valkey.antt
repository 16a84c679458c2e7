-- ===== src/Cache/Valkey.antt =====
-- internal/cache/valkey.go: the provider. Each call dials a connection of its own and may try again.
pub mod Attempts
pub mod Replies
pub mod Served
pub mod Talking
pub mod Calls
pub mod Mapping
pub mod Timeouts
use mirador_rca.Prelude.{
  ℕ, zero, suc, ◌+◌, ◌-◌, ◌*◌, ◌/◌, ◌%◌, ◌^◌, Bool, true, false, not, ◌&&◌, Option, none, some,
  String, List, [], ◌∷◌, ◌++◌, ltb, leb, ◌==◌, if◌then◌else◌,
}
use mirador_rca.Prelude.Int.{ℤ, pos, negsuc, ◌-ℤ◌, ltb_ℤ, leb_ℤ, eqb_ℤ, div_ℤ}
use mirador_rca.Prelude.Text.{codes, codes_eq, lower_code}
use mirador_rca.Model.{Duration}
use mirador_rca.Cache.Resp.{
  Bytes, ValkeyError, broken, cache_miss, unexpected, Result, done, failed, crash, and_then,
  RespReply, ReplyType, simple_string, bulk_string, nil_reply, integer, ValkeyConn, OnConn, itoa,
  exchange,
}

abbrev pub millisecond : ℕ
millisecond = 1_000_000

pub record ValkeyConfig : Type 0 where
  pub addr : Bytes
  pub username : Bytes
  pub password : Bytes
  pub db : ℤ
  pub dial_timeout : Duration
  pub read_timeout : Duration
  pub write_timeout : Duration
  pub max_retries : ℤ
  pub tls : Bool

-- `if x <= 0 { x = fallback }`
abbrev pub or_fallback : ℤ → ℤ → ℤ
or_fallback x fallback = if leb_ℤ x (pos 0) then fallback else x

-- `normaliseDurations`
pub normalise_durations : ValkeyConfig → ValkeyConfig
normalise_durations cfg = record cfg {
  dial_timeout = or_fallback cfg.dial_timeout (pos (2000 * millisecond));
  read_timeout = or_fallback cfg.read_timeout (pos (500 * millisecond));
  write_timeout = or_fallback cfg.write_timeout (pos (500 * millisecond));
  max_retries = or_fallback cfg.max_retries (pos 1);
}

-- `deadlineOr`; the first argument is the time until the context's deadline, if it has one.
pub deadline_or : Option Duration → Duration → Duration
deadline_or none d = if leb_ℤ d (pos 0) then pos millisecond else d
deadline_or (some remaining) d =
    if leb_ℤ remaining (pos 0)
    then pos millisecond
    else if eqb_ℤ d (pos 0)
    then remaining
    else if ltb_ℤ remaining d
    then remaining
    else if leb_ℤ d (pos 0)
    then pos millisecond
    else d

-- A number modulo `2 ^ 64`, as a signed 64-bit integer.
abbrev pub wrap_64 : ℕ → ℤ
wrap_64 n = let m = n % 2 ^ 64 in if ltb m (2 ^ 63) then pos m else pos m -ℤ pos (2 ^ 64)

-- `hostForTLS`; `net.SplitHostPort` is a parameter.
abbrev pub host_for_tls : (Bytes → Option Bytes) → Bytes → Bytes
host_for_tls split_host_port addr = elim (split_host_port addr) [ none ↦ addr | some host ↦ host ]

-- What `dial` asks of the network: how long it may take, and the name of the server for TLS.
pub record DialOptions : Type 0 where
  pub timeout : Duration
  pub server_name : Option Bytes

unfoldable pub dial_options : (Bytes → Option Bytes) → Option Duration → ValkeyConfig → DialOptions
dial_options split_host_port remaining cfg = record {
  timeout = deadline_or remaining cfg.dial_timeout;
  server_name = if cfg.tls then some (host_for_tls split_host_port cfg.addr) else none;
}

-- `backoff`
unfoldable pub backoff : ℕ → Duration
backoff attempt = wrap_64 (2 ^ attempt * (25 * millisecond))

-- `shouldRetry`
pub should_retry : ValkeyError → Bool
should_retry (broken retryable) = retryable
should_retry _ = false

abbrev pub bytes_fold_eq : Bytes → Bytes → Bool
bytes_fold_eq s t = codes_eq (map_lower s) (map_lower t)
  where
    map_lower : Bytes → Bytes
    map_lower [] = []
    map_lower (c ∷ l) = lower_code c ∷ map_lower l

abbrev pub is_empty : Bytes → Bool
is_empty [] = true
is_empty (c ∷ l) = false

abbrev pub is_simple : ReplyType → Bool
is_simple simple_string = true
is_simple _ = false

-- The reply must be OK in any case of letters.
pub check_ok : String → RespReply → Result (Unit {0})
check_ok context reply =
    if is_simple reply.typ && bytes_fold_eq reply.data_bytes (codes "OK")
    then done tt
    else failed (unexpected context reply.data_bytes)

pub authenticate : ValkeyConfig → OnConn (Unit {0})
authenticate cfg vc =
    if is_empty cfg.password
    then (done tt, vc)
    else if is_empty cfg.username
    then exchange "AUTH" (cfg.password ∷ []) (check_ok "auth failed") vc
    else exchange "AUTH" (cfg.username ∷ cfg.password ∷ []) (check_ok "auth failed") vc

pub select_db : ValkeyConfig → OnConn (Unit {0})
select_db cfg vc = elim cfg.db [
  | negsuc n ↦ (done tt, vc)
  | pos n ↦
      if ltb 0 n
      then exchange "SELECT" (itoa n ∷ []) (check_ok "select failed") vc
      else (done tt, vc)
]

-- `bootstrap`
pub bootstrap : ValkeyConfig → OnConn (Unit {0})
bootstrap cfg vc = and_then (authenticate cfg vc) λ u vc1. select_db cfg vc1

-- The number of rounds: at least one.
pub rounds : ℤ → ℕ
rounds (pos (suc n)) = suc n
rounds _ = 1

-- What lies outside: the context's error, dialling, closing and sleeping.
pub record Network (W : Type 0) : Type 0 where
  pub expired : W → Option ValkeyError
  pub dial : ValkeyConfig → W → Result ValkeyConn × W
  pub close : ValkeyConn → W → W
  pub sleep : Duration → W → W

module _ {W : Type 0} (net : Network W) (cfg : ValkeyConfig) {A : Type 0} (fn : OnConn A) where
  -- One round of the loop: dial, `bootstrap`, `fn`. The connection is closed, whatever comes of them.
  pub try_once : W → Result A × W
  try_once w = and_then (net.dial cfg w) λ vc w1.
      let (result, vc1) = and_then (bootstrap cfg vc) (λ u vc'. fn vc') in
      (result, net.close vc1 w1)

  -- The loop of `withConn`, with the rounds that are left and the number of the next one.
  pub attempt_from : ℕ → ℕ → Option ValkeyError → W → Result A × W
  -- No round is left.
  attempt_from zero attempt last w = elim last [ none ↦ (crash, w) | some e ↦ (failed e, w) ]
  attempt_from (suc left) attempt last w = elim (net.expired w) [
    | some e ↦ (failed e, w)
    | none ↦
        let (result, w1) = try_once w in
        elim result [
          | done a ↦ (done a, w1)
          | crash ↦ (crash, w1)
          | failed e ↦
              let again =
                attempt_from left (suc attempt) (some e) (net.sleep (backoff attempt) w1) in
              if should_retry e && ltb 0 left then again else (failed e, w1)
        ]
  ]

  -- `withConn`
  pub with_conn : W → Result A × W
  with_conn w = attempt_from (rounds cfg.max_retries) 0 none w

-- What each method makes of the reply.
pub get_answer : RespReply → Result Bytes
get_answer reply = elim reply.typ [
  | nil_reply ↦ failed cache_miss
  | bulk_string ↦ done reply.data_bytes
  | simple_string ↦ failed (unexpected "unexpected valkey reply type for GET" [])
  | integer ↦ failed (unexpected "unexpected valkey reply type for GET" [])
]

pub set_answer : RespReply → Result (Unit {0})
set_answer reply =
    if is_simple reply.typ && codes_eq reply.data_bytes (codes "OK")
    then done tt
    else failed (unexpected "unexpected SET response" reply.data_bytes)

pub set_nx_answer : RespReply → Result Bool
set_nx_answer reply = elim reply.typ [
  | simple_string ↦ done true
  | nil_reply ↦ done false
  | bulk_string ↦ failed (unexpected "unexpected SETNX response type" [])
  | integer ↦ failed (unexpected "unexpected SETNX response type" [])
]

unfoldable pub ping_answer : RespReply → Result (Unit {0})
ping_answer reply =
    if is_simple reply.typ && codes_eq reply.data_bytes (codes "PONG")
    then done tt
    else failed (unexpected "unexpected PING response" reply.data_bytes)

-- The arguments that set a time to live, in whole milliseconds.
unfoldable pub ttl_args : Duration → List Bytes
ttl_args (pos (suc n)) = codes "PX" ∷ itoa (suc n / millisecond) ∷ []
ttl_args _ = []

module _ {W : Type 0} (net : Network W) (cfg : ValkeyConfig) where
  -- `Get`
  pub get : Bytes → W → Result Bytes × W
  get key = with_conn net cfg (exchange "GET" (key ∷ []) get_answer)

  -- `Set`
  pub set : Bytes → Bytes → Duration → W → Result (Unit {0}) × W
  set key value ttl = with_conn net cfg (exchange "SET" (key ∷ value ∷ ttl_args ttl) set_answer)

  -- `SetNX`
  pub set_nx : Bytes → Bytes → Duration → W → Result Bool × W
  set_nx key value ttl =
      with_conn net cfg
        (exchange "SET" (key ∷ value ∷ (ttl_args ttl ++ codes "NX" ∷ [])) set_nx_answer)

  -- `Del`
  pub del : Bytes → W → Result (Unit {0}) × W
  del key = with_conn net cfg (exchange "DEL" (key ∷ []) λ reply. done tt)

  -- `ping`
  unfoldable pub ping : W → Result (Unit {0}) × W
  ping = with_conn net cfg (exchange "PING" [] ping_answer)

-- `NewValkeyProvider`: the provider is its configuration.
unfoldable pub new_valkey_provider :
    {W : Type 0} → Network W → ValkeyConfig → W → Result ValkeyConfig × W
new_valkey_provider net cfg w =
    let cfg' = normalise_durations cfg in
    if is_empty cfg.addr
    then (failed (unexpected "valkey addr is required" []), w)
    else and_then (ping net cfg' w) λ u w1. (done cfg', w1)
