-- ===== src/Cache/Valkey/Attempts.antt =====
-- internal/cache/valkey.go, `withConn`: which rounds are made, and when they end.
use mathlib.Core.Path.{subst}
use mirador_rca.Prelude.{
  ℕ, zero, suc, ◌+◌, ◌≤◌, ◌<◌, ◌≡◌, refl, sym, ◌⊎◌, inl, inr, Bool, true, false, ◌&&◌, Option, none,
  some, ltb, if◌then◌else◌, arith, Bool-cases, Option-cases,
}
use mirador_rca.Prelude.Int.{ℤ, pos, negsuc}
use mirador_rca.Cache.Resp.{ValkeyError, Result, done, failed, crash, OnConn}
use mirador_rca.Cache.Valkey.{
  ValkeyConfig, Network, backoff, should_retry, try_once, attempt_from, rounds, with_conn,
}

abbrev pub may_retry : {A : Type 0} → Result A → Bool
may_retry (failed e) = should_retry e
may_retry _ = false

-- So many rounds from the given number on: each but the last fails with an error that allows another
-- one, and is followed by its pause. The last one answers, panics, fails with another error, or is the
-- last that the limit allows. If the context has expired before a round, its error comes out instead.
pub data Rounds {W : Type 0} (net : Network W) (cfg : ValkeyConfig) {A : Type 0} (fn : OnConn A)
    (limit : ℕ) : ℕ → ℕ → W → Result A → W → Type 0 where
  over :
      {attempt : ℕ} {w : W} {e : ValkeyError}
      → net.expired w ≡ some e
      → Rounds net cfg fn limit attempt 0 w (failed e) w
  settled :
      {attempt : ℕ} {w w' : W} {result : Result A}
      → net.expired w ≡ none
      → try_once net cfg fn w ≡ (result, w')
      → (suc attempt ≡ limit) ⊎ (may_retry result ≡ false)
      → Rounds net cfg fn limit attempt 1 w result w'
  again :
      {attempt n : ℕ} {w w1 w' : W} {e : ValkeyError} {result : Result A}
      → net.expired w ≡ none
      → try_once net cfg fn w ≡ (failed e, w1)
      → should_retry e ≡ true
      → suc attempt < limit
      → Rounds net cfg fn limit (suc attempt) n (net.sleep (backoff attempt) w1) result w'
      → Rounds net cfg fn limit attempt (suc n) w result w'

pub rounds_pos : (n : ℤ) → 1 ≤ rounds n
unfolding rounds
rounds_pos (pos zero) = omega arith
rounds_pos (pos (suc n)) = omega arith
rounds_pos (negsuc n) = omega arith

module _ {W : Type 0} (net : Network W) (cfg : ValkeyConfig) {A : Type 0} (fn : OnConn A) where
  -- What a round makes of its result.
  abbrev pub next : ℕ → ℕ → Result A × W → Result A × W
  next left attempt (done a, w1) = (done a, w1)
  next left attempt (crash, w1) = (crash, w1)
  next left attempt (failed e, w1) =
      let again =
        attempt_from net cfg fn left (suc attempt) (some e) (net.sleep (backoff attempt) w1) in
      if should_retry e && ltb 0 left then again else (failed e, w1)

  attempt_from-expired :
      (left attempt : ℕ) (last : Option ValkeyError) (w : W) (e : ValkeyError)
      → net.expired w ≡ some e
      → attempt_from net cfg fn (suc left) attempt last w ≡ (failed e, w)
  unfolding attempt_from
  attempt_from-expired left attempt last w e h = rw (attempt_from, h)

  pub attempt_from-next :
      (left attempt : ℕ) (last : Option ValkeyError) (w : W)
      → net.expired w ≡ none
      → attempt_from net cfg fn (suc left) attempt last w
        ≡ next left attempt (try_once net cfg fn w)
  unfolding attempt_from
  attempt_from-next left attempt last w h = rw (attempt_from, h) (go (try_once net cfg fn w))
    where
      go :
          (x : Result A × W)
          → elim x.0 as (λ _. Result A × W) [
            | done a ↦ (done a, x.1)
            | crash ↦ (crash, x.1)
            | failed e ↦
                let again =
                  attempt_from net cfg fn left
                    (suc attempt)
                    (some e)
                    (net.sleep (backoff attempt) x.1) in
                if should_retry e && ltb 0 left then again else (failed e, x.1)
          ]
            ≡ next left attempt x
      go (done a, w1) = refl
      go (failed e, w1) = refl
      go (crash, w1) = refl

  -- What is claimed of the rounds from one on.
  abbrev Ends : ℕ → ℕ → ℕ → W → Result A × W → Type 0
  Ends limit left attempt w out =
      (n : ℕ) × Rounds net cfg fn limit attempt n w out.0 out.1 × (n ≤ left)

  -- The rounds that follow a failed one.
  abbrev Continues : ℕ → ℕ → ℕ → Type 0
  Continues limit left attempt =
      (e : ValkeyError) (w : W)
      → ltb 0 left ≡ true
      → Ends limit left (suc attempt) w (attempt_from net cfg fn left (suc attempt) (some e) w)

  next-Ends :
      (limit left attempt : ℕ) (w : W)
      → attempt + suc left ≡ limit
      → net.expired w ≡ none
      → Continues limit left attempt
      → (x : Result A × W) → try_once net cfg fn w ≡ x
      → Ends limit (suc left) attempt w (next left attempt x)
  next-Ends limit left attempt w h live more (done a, w1) e =
      (1, settled live e (inr refl), omega arith)
  next-Ends limit left attempt w h live more (crash, w1) e =
      (1, settled live e (inr refl), omega arith)
  next-Ends limit left attempt w h live more (failed x, w1) e = elim (Bool-cases (should_retry x)) [
    | inr fatal ↦ rw fatal (1, settled live e (inr fatal), omega arith)
    | inl retry ↦ elim (Bool-cases (ltb 0 left)) [
      | inr full ↦ rw (retry, full) (1, settled live e (inl (ground arith)), omega arith)
      | inl room ↦
          let (n, rest, few) = more x (net.sleep (backoff attempt) w1) room in
          rw (retry, room) (suc n, again live e retry (ground arith) rest, omega arith)
    ]
  ]

  attempt_from-Ends :
      (limit left attempt : ℕ) (last : Option ValkeyError) (w : W)
      → attempt + suc left ≡ limit
      → Continues limit left attempt
      → Ends limit (suc left) attempt w (attempt_from net cfg fn (suc left) attempt last w)
  attempt_from-Ends limit left attempt last w h more = elim (Option-cases (net.expired w)) [
    | inr (e, x) ↦
        subst (Ends limit (suc left) attempt w) (sym (attempt_from-expired left attempt last w e x))
          (0, over x, omega arith)
    | inl live ↦
        subst (Ends limit (suc left) attempt w) (sym (attempt_from-next left attempt last w live))
          (next-Ends limit left attempt w h live more (try_once net cfg fn w) refl)
  ]

  attempt_from-Rounds :
      (limit left attempt : ℕ) (last : Option ValkeyError) (w : W)
      → attempt + suc left ≡ limit
      → Ends limit (suc left) attempt w (attempt_from net cfg fn (suc left) attempt last w)
  attempt_from-Rounds limit zero attempt last w h =
      attempt_from-Ends limit zero attempt last w h λ e v room. absurd (ground arith)
  attempt_from-Rounds limit (suc left) attempt last w h =
      attempt_from-Ends limit (suc left) attempt last w h
        λ e v room. attempt_from-Rounds limit left (suc attempt) (some e) v (omega arith)

  -- `withConn` ends within as many rounds as the configuration allows, at least one, and always by one
  -- of its rounds or by the context: the retries follow the rules of `Rounds`, with the pauses of
  -- `backoff` in between.
  pub with_conn_lem :
      (w : W)
      → (n : ℕ) × Rounds net cfg fn
          (rounds cfg.max_retries)
          0
          n
          w
          (with_conn net cfg fn w).0
          (with_conn net cfg fn w).1
        × (n ≤ rounds cfg.max_retries)
  unfolding with_conn
  with_conn_lem w = go (rounds cfg.max_retries) (rounds_pos cfg.max_retries)
    where
      go : (n : ℕ) → 1 ≤ n → Ends n n 0 w (attempt_from net cfg fn n 0 none w)
      go zero h = absurd (omega arith)
      go (suc n) h = attempt_from-Rounds (suc n) n 0 none w (omega arith)
