-- ===== src/Cache/Valkey/Calls.antt =====
-- internal/cache/valkey.go, `withConn` with a server: what a call comes to.
use mathlib.Core.Path.{subst}
use mirador_rca.Prelude.{
  ℕ, zero, suc, ◌≤◌, ◌≡◌, refl, sym, ap, ◌∙◌, false, none, String, List, [], ◌∷◌, ◌++◌, All-append,
  arith,
}
use mirador_rca.Prelude.Text.{codes}
use mirador_rca.Cache.Resp.{
  Bytes, ValkeyError, Result, done, failed, crash, and_then, RespReply, exchange,
}
use mirador_rca.Cache.Resp.Server.{IsCarried}
use mirador_rca.Cache.Valkey.{
  ValkeyConfig, Network, bootstrap, rounds, try_once, with_conn, attempt_from,
}
use mirador_rca.Cache.Valkey.Attempts.{may_retry, rounds_pos, next, attempt_from-next}
use mirador_rca.Cache.Valkey.Served.{
  IsSmall, commands_of-encode_all, encode_all, after, after-append,
}
use mirador_rca.Cache.Valkey.Talking.{
  greeting, Connected, talked, exchange-talked, bootstrap-talked, after-greeting,
}

module _ {S : Type 0} (run : List Bytes → S → RespReply × S) {W : Type 0} (net : Network W)
    (cfg : ValkeyConfig) (state : W → S) (connected : Connected run net cfg state) {A : Type 0}
    (command : String) (args : List Bytes) (answer : RespReply → Result A) where
  abbrev parts : List Bytes
  parts = codes command ∷ args

  -- A call answers what it makes of the reply, and the command has been run.
  abbrev Answered : W → Result A × W → Type 0
  Answered w y = (y.0 ≡ answer (run parts (state w)).0) × (state y.1 ≡ (run parts (state w)).1)

  exchange-greeted :
      (s : S) (ending : ValkeyError)
      → IsSmall parts
      → IsCarried (run parts s).0
      → and_then (bootstrap cfg (talked run s ending [])) (λ u vc. exchange command args answer vc)
        ≡ (answer (run parts s).0, talked run s ending (greeting cfg ++ parts ∷ []))
  exchange-greeted s ending small carried =
      let settled = after-greeting run (greeting cfg) s connected.accepted in
      ap (λ x. and_then x (λ u vc. exchange command args answer vc))
        (bootstrap-talked run s ending cfg connected.small connected.accepted)
      ∙ exchange-talked run s ending (greeting cfg) command args answer
          (All-append _ (greeting cfg) (parts ∷ []) connected.small (small, tt))
          (subst (λ x. IsCarried (run parts x).0) (sym settled) carried)
      ∙ ap (λ x. (answer (run parts x).0, talked run s ending (greeting cfg ++ parts ∷ []))) settled

  closed-greeted :
      (s : S) (ending : ValkeyError) (w : W)
      → IsSmall parts
      → state w ≡ s
      → state (net.close (talked run s ending (greeting cfg ++ parts ∷ [])) w) ≡ (run parts s).1
  closed-greeted s ending w small same =
      connected.closed (talked run s ending (greeting cfg ++ parts ∷ [])) w
      ∙ ap (λ l. after run l (state w))
          (commands_of-encode_all (greeting cfg ++ parts ∷ [])
            (All-append _ (greeting cfg) (parts ∷ []) connected.small (small, tt)))
      ∙ after-append run (greeting cfg) parts (state w)
      ∙ ap (λ x. (run parts x).1)
          (after-greeting run (greeting cfg) (state w) connected.accepted ∙ same)

  try_once-Answered :
      (w : W)
      → IsSmall parts
      → IsCarried (run parts (state w)).0
      → (y : Result A × W) × (try_once net cfg (exchange command args answer) w ≡ y) × Answered w y
  unfolding try_once encode_all
  try_once-Answered w small carried =
      let (ending, w', dialled, same) = connected.dialled w in
      let s = state w in
      (
        (answer (run parts s).0, net.close (talked run s ending (greeting cfg ++ parts ∷ [])) w'),
        ap
              (λ x. and_then x λ vc w1.
                let (result, vc1) =
                  and_then (bootstrap cfg vc) (λ u vc'. exchange command args answer vc') in
                (result, net.close vc1 w1))
              dialled
            ∙ ap (λ x. (x.0, net.close x.1 w')) (exchange-greeted s ending small carried),
        (refl, closed-greeted s ending w' small same),
      )

  next-settled :
      (left attempt : ℕ) (y : Result A × W)
      → may_retry y.0 ≡ false
      → next net cfg (exchange command args answer) left attempt y ≡ y
  next-settled left attempt (done a, w) h = refl
  next-settled left attempt (crash, w) h = refl
  next-settled left attempt (failed e, w) h = rw h refl

  first_round :
      (n : ℕ) (w : W) (y : Result A × W)
      → 1 ≤ n
      → try_once net cfg (exchange command args answer) w ≡ y
      → may_retry y.0 ≡ false
      → attempt_from net cfg (exchange command args answer) n 0 none w ≡ y
  first_round zero w y h e fatal = absurd (omega arith)
  first_round (suc n) w y h e fatal =
      attempt_from-next net cfg (exchange command args answer) n 0 none w (connected.live w)
      ∙ ap (next net cfg (exchange command args answer) n 0) e
      ∙ next-settled n 0 y fatal

  -- With a server that runs its commands, a call whose answer is no error to retry takes one round.
  pub with_conn-Answered :
      (w : W)
      → IsSmall parts
      → IsCarried (run parts (state w)).0
      → may_retry (answer (run parts (state w)).0) ≡ false
      → Answered w (with_conn net cfg (exchange command args answer) w)
  unfolding with_conn
  with_conn-Answered w small carried fatal =
      let (y, e, answered) = try_once-Answered w small carried in
      subst (Answered w)
        (sym (
          first_round (rounds cfg.max_retries) w y (rounds_pos cfg.max_retries) e
            (ap may_retry answered.0 ∙ fatal)))
        answered
