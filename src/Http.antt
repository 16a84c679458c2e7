-- ===== src/Http.antt =====
-- Go's net/http as the clients of internal/repo use it: what they send, and how they go on after a step.
use mirador_rca.Prelude.{ℕ, Option, String}
use mirador_rca.Prelude.Text.{◌<>◌}
use mirador_rca.Prelude.Outcome.{Reply, reply, failure}

-- A request that is posted, with the value of its `Authorization`, if there is one.
pub record HttpRequest (D : Type 0) : Type 0 where
  pub url : String
  pub authorization : Option String
  pub body : D

pub record HttpResponse (D : Type 0) : Type 0 where
  pub status : ℕ
  pub body : D

-- `if err != nil { return err }` after a step, and after a call that changes what lies outside.
abbrev pub attempt : {W A B : Type 0} → Reply A → (A → W → Reply B × W) → W → Reply B × W
attempt (reply a) f w = f a w
attempt (failure e) f w = (failure e, w)

abbrev pub and_then : {W A B : Type 0} → Reply A × W → (A → W → Reply B × W) → Reply B × W
and_then (reply a, w) f = f a w
and_then (failure e, w) f = (failure e, w)

-- `%w`
abbrev pub wrapped : {A : Type 0} → String → Reply A → Reply A
wrapped context (reply a) = reply a
wrapped context (failure e) = failure (context <> (": " <> e))
