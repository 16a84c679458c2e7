-- ===== src/Cache/Valkey/Talking.antt =====
-- internal/cache/valkey.go, `bootstrap` and an exchange on a connection to a server.
use mathlib.Core.List.{append-nil}
use mathlib.Core.Path.{subst}
use mirador_rca.Prelude.{
  ℕ, ◌≡◌, refl, sym, ap, ◌∙◌, Bool, true, false, none, String, List, [], ◌∷◌, ◌++◌, All, All-left,
  All-right, ltb, if◌then◌else◌, arith,
}
use mirador_rca.Prelude.Int.{ℤ, pos, negsuc}
use mirador_rca.Prelude.Text.{codes, codes_eq}
use mirador_rca.Cache.Resp.{
  Bytes, ValkeyError, Result, done, and_then, RespReply, simple_string, ValkeyConn, itoa, exchange,
}
use mirador_rca.Cache.Resp.Lines.{is_line}
use mirador_rca.Cache.Resp.Server.{IsCarried}
use mirador_rca.Cache.Valkey.{
  ValkeyConfig, Network, is_empty, check_ok, authenticate, select_db, bootstrap,
}
use mirador_rca.Cache.Valkey.Replies.{talking, exchange_lem}
use mirador_rca.Cache.Valkey.Served.{
  IsSmall, commands_of, encode_all, encode_all-append, after, peer_of, peer_of-append,
}

abbrev pub ok_reply : RespReply
ok_reply = record { typ = simple_string; data_bytes = codes "OK" }

-- The commands that `bootstrap` sends.
abbrev pub auth_parts : ValkeyConfig → List (List Bytes)
auth_parts cfg =
    if is_empty cfg.password
    then []
    else if is_empty cfg.username
    then (codes "AUTH" ∷ cfg.password ∷ []) ∷ []
    else (codes "AUTH" ∷ cfg.username ∷ cfg.password ∷ []) ∷ []

abbrev pub select_parts : ℤ → List (List Bytes)
select_parts (negsuc n) = []
select_parts (pos n) = if ltb 0 n then (codes "SELECT" ∷ itoa n ∷ []) ∷ [] else []

abbrev pub greeting : ValkeyConfig → List (List Bytes)
greeting cfg = auth_parts cfg ++ select_parts cfg.db

pub codes_eq_refl : (l : Bytes) → codes_eq l l ≡ true
unfolding codes_eq
codes_eq_refl [] = refl
codes_eq_refl (c ∷ l) = ground (arith, codes_eq_refl l)

check_ok-ok : (context : String) → check_ok context ok_reply ≡ done tt
unfolding check_ok
check_ok-ok context = rw (codes_eq_refl _) refl

pub ok_reply-IsCarried : IsCarried ok_reply
unfolding is_line
ok_reply-IsCarried = refl

module _ {S : Type 0} (run : List Bytes → S → RespReply × S) where
  -- A command that the server accepts, and that leaves its data as they are.
  abbrev pub IsAccepted : List Bytes → Type 0
  IsAccepted c = (s : S) → ((run c s).0 ≡ ok_reply) × ((run c s).1 ≡ s)

  -- A network behind which there is this server: dialling makes a connection to it, and what it was sent
  -- on a connection that is closed has been run.
  pub record Connected {W : Type 0} (net : Network W) (cfg : ValkeyConfig) (state : W → S)
      : Type 0 where
    pub live : (w : W) → net.expired w ≡ none
    pub dialled :
        (w : W)
        → (ending : ValkeyError) × (w' : W) × (net.dial cfg w
            ≡ (done (talking (peer_of run (state w)) ending []), w'))
          × (state w' ≡ state w)
    pub closed :
        (vc : ValkeyConn) (w : W)
        → state (net.close vc w) ≡ after run (commands_of vc.output) (state w)
    pub small : All IsSmall (greeting cfg)
    pub accepted : All IsAccepted (greeting cfg)

  module _ (s : S) (ending : ValkeyError) where
    -- The connection after these commands.
    abbrev pub talked : List (List Bytes) → ValkeyConn
    talked commands = talking (peer_of run s) ending (encode_all commands)

    pub exchange-talked :
        {A : Type 0} (commands : List (List Bytes)) (command : String) (args : List Bytes)
        (answer : RespReply → Result A)
        → let c = codes command ∷ args in
          All IsSmall (commands ++ c ∷ [])
          → IsCarried (run c (after run commands s)).0
          → exchange command args answer (talked commands)
            ≡ (answer (run c (after run commands s)).0, talked (commands ++ c ∷ []))
    exchange-talked commands command args answer small carried =
        let c = codes command ∷ args in
        exchange_lem command args answer (run c (after run commands s)).0 (peer_of run s) ending
          (encode_all commands) (peer_of-append run commands c s small) carried
        ∙ ap (λ l. (answer (run c (after run commands s)).0, talking (peer_of run s) ending l))
            (sym (encode_all-append commands c))

    check_ok-talked :
        (commands : List (List Bytes)) (context command : String) (args : List Bytes)
        → let c = codes command ∷ args in
          All IsSmall (commands ++ c ∷ [])
          → IsAccepted c
          → exchange command args (check_ok context) (talked commands)
            ≡ (done tt, talked (commands ++ c ∷ []))
    check_ok-talked commands context command args small accepted =
        let c = codes command ∷ args in
        let (replied, _) = accepted (after run commands s) in
        exchange-talked commands command args (check_ok context) small
          (subst IsCarried (sym replied) ok_reply-IsCarried)
        ∙ ap (λ x. (x, talked (commands ++ c ∷ [])))
            (ap (check_ok context) replied ∙ check_ok-ok context)

    select_db-talked :
        (commands : List (List Bytes)) (cfg : ValkeyConfig)
        → All IsSmall (commands ++ select_parts cfg.db)
        → All IsAccepted (select_parts cfg.db)
        → select_db cfg (talked commands) ≡ (done tt, talked (commands ++ select_parts cfg.db))
    unfolding select_db
    select_db-talked commands cfg small accepted = go cfg.db small accepted
      where
        chosen :
            (n : ℕ) (some_db : Bool)
            → let parts = if some_db then (codes "SELECT" ∷ itoa n ∷ []) ∷ [] else [] in
              All IsSmall (commands ++ parts)
              → All IsAccepted parts
              → (if some_db
                  then exchange "SELECT" (itoa n ∷ []) (check_ok "select failed") (talked commands)
                  else (done tt, talked commands))
                ≡ (done tt, talked (commands ++ parts))
        chosen n true small accepted =
            check_ok-talked commands "select failed" "SELECT" (itoa n ∷ []) small accepted.0
        chosen n false small accepted = ap (λ l. (done tt, talked l)) (sym (append-nil commands))

        go :
            (db : ℤ)
            → All IsSmall (commands ++ select_parts db)
            → All IsAccepted (select_parts db)
            → elim db as (λ _. Result (Unit {0}) × ValkeyConn) [
              | negsuc n ↦ (done tt, talked commands)
              | pos n ↦
                  if ltb 0 n
                  then exchange "SELECT" (itoa n ∷ []) (check_ok "select failed") (talked commands)
                  else (done tt, talked commands)
            ]
              ≡ (done tt, talked (commands ++ select_parts db))
        go (negsuc n) small accepted = ap (λ l. (done tt, talked l)) (sym (append-nil commands))
        go (pos n) small accepted = chosen n (ltb 0 n) small accepted

    authenticate-talked :
        (cfg : ValkeyConfig)
        → All IsSmall (auth_parts cfg)
        → All IsAccepted (auth_parts cfg)
        → authenticate cfg (talked []) ≡ (done tt, talked (auth_parts cfg))
    unfolding authenticate
    authenticate-talked cfg small accepted =
        go (is_empty cfg.password) (is_empty cfg.username) small accepted
      where
        parts : Bool → Bool → List (List Bytes)
        parts no_password no_username =
            if no_password
            then []
            else if no_username
            then (codes "AUTH" ∷ cfg.password ∷ []) ∷ []
            else (codes "AUTH" ∷ cfg.username ∷ cfg.password ∷ []) ∷ []

        go :
            (no_password no_username : Bool)
            → All IsSmall (parts no_password no_username)
            → All IsAccepted (parts no_password no_username)
            → (if no_password
                then (done tt, talked [])
                else if no_username
                then exchange "AUTH" (cfg.password ∷ []) (check_ok "auth failed") (talked [])
                else exchange "AUTH"
                    (cfg.username ∷ cfg.password ∷ [])
                    (check_ok "auth failed")
                    (talked []))
              ≡ (done tt, talked (parts no_password no_username))
        go true u small accepted = refl
        go false true small accepted =
            check_ok-talked [] "auth failed" "AUTH" (cfg.password ∷ []) small accepted.0
        go false false small accepted =
            check_ok-talked [] "auth failed" "AUTH" (cfg.username ∷ cfg.password ∷ []) small
              accepted.0

    pub bootstrap-talked :
        (cfg : ValkeyConfig)
        → All IsSmall (greeting cfg)
        → All IsAccepted (greeting cfg)
        → bootstrap cfg (talked []) ≡ (done tt, talked (greeting cfg))
    unfolding bootstrap
    bootstrap-talked cfg small accepted =
        ap (λ x. and_then x λ u vc. select_db cfg vc)
          (authenticate-talked cfg (All-left _ (auth_parts cfg) (select_parts cfg.db) small)
            (All-left _ (auth_parts cfg) (select_parts cfg.db) accepted))
        ∙ select_db-talked (auth_parts cfg) cfg small
            (All-right _ (auth_parts cfg) (select_parts cfg.db) accepted)

  pub after-greeting :
      (commands : List (List Bytes)) (s : S) → All IsAccepted commands → after run commands s ≡ s
  after-greeting [] s h = refl
  after-greeting (c ∷ commands) s (a, h) =
      ap (after run commands) ((a s).1) ∙ after-greeting commands s h
