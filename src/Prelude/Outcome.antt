-- ===== src/Prelude/Outcome.antt =====
-- Go's results. A call of a client returns a value or an error; a function of the program may also
-- panic. An action passes the state `W` of what lies outside the program through its calls.
use mathlib.Core.Path.{◌≡◌, refl, ap}
use mathlib.Core.Logic.{◌⊎◌, inl, inr}
use mathlib.Core.Option.{Option, none, some}
use Prim.Native.String.{String}

pub data Reply {ℓ} (A : Type ℓ) : Type ℓ where
  reply : A → Reply A
  failure : String → Reply A

pub data Outcome {ℓ} (A : Type ℓ) : Type ℓ where
  ok : A → Outcome A
  err : String → Outcome A
  panic : Outcome A

abbrev pub Act : Type 0 → Type 0 → Type 0
Act W A = W → Outcome A × W

abbrev pub bind_at : {W A B : Type 0} → (A → Act W B) → Outcome A → Act W B
bind_at f (ok a) w = f a w
bind_at f (err e) w = (err e, w)
bind_at f panic w = (panic, w)

infixl 5 ◌>>=◌ ◌>>◌
abbrev pub ◌>>=◌ : {W A B : Type 0} → Act W A → (A → Act W B) → Act W B
◌>>=◌ m f w = let (a, w') = m w in bind_at f a w'

abbrev pub ◌>>◌ : {W A B : Type 0} → Act W A → Act W B → Act W B
m >> k = m >>= λ _. k

abbrev pub pure : {W A : Type 0} → A → Act W A
pure a w = (ok a, w)

abbrev pub raise : {W A : Type 0} → String → Act W A
raise e w = (err e, w)

-- An index out of range stops the program.
abbrev pub or_panic : {W A : Type 0} → Option A → Act W A
or_panic (some a) w = (ok a, w)
or_panic none w = (panic, w)

-- An action after one that gave a value, an error or a panic.
module _ {W A B : Type 0} (m : Act W A) (f : A → Act W B) (w w' : W) where
  pub bind-ok : (a : A) → m w ≡ (ok a, w') → (m >>= f) w ≡ f a w'
  bind-ok a h = ap (λ x. bind_at f x.0 x.1) h

  pub bind-err : (e : String) → m w ≡ (err e, w') → (m >>= f) w ≡ (err e, w')
  bind-err e h = ap (λ x. bind_at f x.0 x.1) h

-- A call answers or fails.
pub reply-cases :
    {A W : Type 0} (x : Reply A × W)
    → ((a : A) × (w : W) × (x ≡ (reply a, w))) ⊎ ((e : String) × (w : W) × (x ≡ (failure e, w)))
reply-cases (reply a, w) = inl (a, w, refl)
reply-cases (failure e, w) = inr (e, w, refl)

pub Reply-cases :
    {A : Type 0} (y : Reply A) → ((a : A) × (y ≡ reply a)) ⊎ ((e : String) × (y ≡ failure e))
Reply-cases (reply a) = inl (a, refl)
Reply-cases (failure e) = inr (e, refl)
