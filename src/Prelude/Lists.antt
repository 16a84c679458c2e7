-- ===== src/Prelude/Lists.antt =====
-- Lists measured and indexed by native numbers, and predicates on lists.
use Prim.Native.Nat.{ℕ, zero, suc, ◌+◌, ◌-◌, ◌≤◌, min}
use mathlib.Core.Path.{◌≡◌, refl, ap, ◌∙◌, subst}
use mathlib.Core.Logic.{∥∥₁_elim, ∥∥₁_map, ◌↔◌, inl, inr}
use mathlib.Core.Logic.Or
use mathlib.Core.Bool.{Bool, true, false, ◌||◌}
use mathlib.Core.Option.{Option, none, some}
use mathlib.Core.HLevel.{×_prop, Unit-prop}
use mathlib.Core.List.{List, [], ◌∷◌, ◌++◌, map, Mem, mem-cons, mem-cons_self, Perm, Permᴰ}
use mathlib.Core.List
use native.Mathlib.Nat.{ℕ_set}
use native.Mathlib.Omega.{arith}
use mirador_rca.Prelude.Tests.{Bool-cases}

module _ {ℓ} {A : Type ℓ} where
  abbrev pub length : List A → ℕ
  length [] = 0
  length (x ∷ xs) = suc (length xs)

  abbrev pub get_elem? : List A → ℕ → Option A
  get_elem? [] i = none
  get_elem? (x ∷ xs) zero = some x
  get_elem? (x ∷ xs) (suc i) = get_elem? xs i

  abbrev pub get_or : List A → ℕ → A → A
  get_or [] i d = d
  get_or (x ∷ xs) zero d = x
  get_or (x ∷ xs) (suc i) d = get_or xs i d

  abbrev pub take : ℕ → List A → List A
  take zero xs = []
  take (suc n) [] = []
  take (suc n) (x ∷ xs) = x ∷ take n xs

  abbrev pub drop : ℕ → List A → List A
  drop zero xs = xs
  drop (suc n) [] = []
  drop (suc n) (x ∷ xs) = drop n xs

  -- `slices.ContainsFunc`: some element passes the test.
  unfoldable pub any : (A → Bool) → List A → Bool
  any p [] = false
  any p (x ∷ xs) = p x || any p xs

  -- The elements that pass a test, in order.
  unfoldable pub keep : (A → Bool) → List A → List A
  keep p [] = []
  keep p (x ∷ xs) = elim (p x) [ true ↦ x ∷ keep p xs | false ↦ keep p xs ]

  pub keep-true :
      (p : A → Bool) (x : A) (xs : List A) → p x ≡ true → keep p (x ∷ xs) ≡ x ∷ keep p xs
  unfolding keep
  keep-true p x xs e = rw (e, keep)

  pub keep-false : (p : A → Bool) (x : A) (xs : List A) → p x ≡ false → keep p (x ∷ xs) ≡ keep p xs
  unfolding keep
  keep-false p x xs e = rw (e, keep)

  pub length-append : (xs ys : List A) → length (xs ++ ys) ≡ length xs + length ys
  length-append [] ys = omega arith
  length-append (x ∷ xs) ys = omega (arith, length-append xs ys)

  pub length-take : (n : ℕ) (xs : List A) → length (take n xs) ≡ min n (length xs)
  length-take zero xs = omega arith
  length-take (suc n) [] = omega arith
  length-take (suc n) (x ∷ xs) = omega (arith, length-take n xs)

  pub take-append-drop : (n : ℕ) (xs : List A) → take n xs ++ drop n xs ≡ xs
  take-append-drop zero xs = refl
  take-append-drop (suc n) [] = refl
  take-append-drop (suc n) (x ∷ xs) = ap (◌∷◌ x) (take-append-drop n xs)

  pub take_all : (n : ℕ) (xs : List A) → length xs ≤ n → take n xs ≡ xs
  take_all zero [] h = refl
  take_all zero (x ∷ xs) h = absurd (omega arith)
  take_all (suc n) [] h = refl
  take_all (suc n) (x ∷ xs) h = ap (◌∷◌ x) (take_all n xs (omega arith))

  abbrev pub All {κ} : (A → Type κ) → List A → Type κ
  All P [] = Unit
  All P (x ∷ xs) = P x × All P xs

pub length-drop : {A : Type 0} (n : ℕ) (l : List A) → length (drop n l) ≡ length l - n
length-drop zero l = omega arith
length-drop (suc n) [] = omega arith
length-drop (suc n) (a ∷ l) = omega (arith, length-drop n l)

drop-nil : (A : Type 0) (n : ℕ) → drop {A = A} n [] ≡ []
drop-nil A zero = refl
drop-nil A (suc n) = refl

pub drop-drop : {A : Type 0} (n m : ℕ) (l : List A) → drop m (drop n l) ≡ drop (n + m) l
drop-drop zero m l = ap (λ k. drop k l) {x = m} {y = zero + m} (omega arith)
drop-drop {A} (suc n) m [] =
    drop-nil A m ∙ ap (λ k. drop k []) {x = suc (n + m)} {y = suc n + m} (omega arith)
drop-drop {A} (suc n) m (a ∷ l) =
    drop-drop n m l ∙ ap (λ k. drop k (a ∷ l)) {x = suc (n + m)} {y = suc n + m} (omega arith)

pub length-map {ℓ κ} :
    {A : Type ℓ} {B : Type κ} (xs : List A) (f : A → B) → length (map f xs) ≡ length xs
length-map [] f = refl
length-map (x ∷ xs) f = ap suc (length-map xs f)

module _ {ℓ κ} {A : Type ℓ} (P : A → Type κ) where
  pub All-take : (n : ℕ) (xs : List A) → All P xs → All P (take n xs)
  All-take zero xs h = tt
  All-take (suc n) [] h = tt
  All-take (suc n) (x ∷ xs) (p, ps) = (p, All-take n xs ps)

  pub All-drop : (n : ℕ) (xs : List A) → All P xs → All P (drop n xs)
  All-drop zero xs h = h
  All-drop (suc n) [] h = tt
  All-drop (suc n) (x ∷ xs) (p, ps) = All-drop n xs ps

  pub All-left : (xs ys : List A) → All P (xs ++ ys) → All P xs
  All-left [] ys h = tt
  All-left (x ∷ xs) ys (p, ps) = (p, All-left xs ys ps)

  pub All-right : (xs ys : List A) → All P (xs ++ ys) → All P ys
  All-right [] ys h = h
  All-right (x ∷ xs) ys (p, ps) = All-right xs ys ps

  pub All-append : (xs ys : List A) → All P xs → All P ys → All P (xs ++ ys)
  All-append [] ys h hs = hs
  All-append (x ∷ xs) ys (p, ps) hs = (p, All-append xs ys ps hs)

  pub All-of_forall : ((x : A) → P x) → (xs : List A) → All P xs
  All-of_forall h [] = tt
  All-of_forall h (x ∷ xs) = (h x, All-of_forall h xs)

  pub All-prop : ((x : A) → IsProp (P x)) → (xs : List A) → IsProp (All P xs)
  All-prop h [] = Unit-prop
  All-prop h (x ∷ xs) = ×_prop (h x) (All-prop h xs)

  pub All-keep :
      (p : A → Bool) (xs : List A) → ((x : A) → Mem x xs → p x ≡ true → P x) → All P (keep p xs)
  unfolding keep
  All-keep p [] h = tt
  All-keep p (x ∷ xs) h =
      let rest = All-keep p xs (λ y m. h y (List.mem-cons_of_mem x m)) in
      elim (Bool-cases (p x)) [
        | inl e ↦ rw (e, keep) (h x mem-cons_self e, rest)
        | inr e ↦ rw (e, keep) rest
      ]

  pub All-map {μ} :
      {B : Type μ} (f : B → A) (xs : List B) → All (λ x. P (f x)) xs → All P (map f xs)
  All-map f [] h = tt
  All-map f (x ∷ xs) (h, hs) = (h, All-map f xs hs)

  pub All-imp {μ} : {Q : A → Type μ} (h : (x : A) → P x → Q x) (xs : List A) → All P xs → All Q xs
  All-imp h [] ps = tt
  All-imp h (x ∷ xs) (p, ps) = (h x p, All-imp h xs ps)

  All-permᴰ : {xs ys : List A} → Permᴰ xs ys → All P xs → All P ys
  All-permᴰ Permᴰ.nil h = h
  All-permᴰ (Permᴰ.cons e p) (h, hs) = (subst P e h, All-permᴰ p hs)
  All-permᴰ (Permᴰ.swap e f) (h, (k, hs)) = (subst P f k, (subst P e h, hs))
  All-permᴰ (Permᴰ.trans p q) h = All-permᴰ q (All-permᴰ p h)

  -- A predicate that holds all along a list holds all along each rearrangement of it.
  pub All-perm : ((x : A) → IsProp (P x)) → {xs ys : List A} → Perm xs ys → All P xs → All P ys
  All-perm prop {xs} {ys} p h = ∥∥₁_elim p (All-prop prop ys) λ q. All-permᴰ q h

module _ {ℓ} {A : Type ℓ} where
  length-permᴰ : {xs ys : List A} → Permᴰ xs ys → length xs ≡ length ys
  length-permᴰ Permᴰ.nil = refl
  length-permᴰ (Permᴰ.cons x p) = ap suc (length-permᴰ p)
  length-permᴰ (Permᴰ.swap x y) = refl
  length-permᴰ (Permᴰ.trans p q) = omega (arith, length-permᴰ p, length-permᴰ q)

  pub length-perm : {xs ys : List A} → Perm xs ys → length xs ≡ length ys
  length-perm p = ∥∥₁_elim p (ℕ_set _ _) length-permᴰ

pub Bool-eq-prop : {b c : Bool} → IsProp (b ≡ c)
Bool-eq-prop = hlevel

module _ {ℓ} {A : Type ℓ} (p : A → Bool) where
  any-of_mem : (l : List A) (x : A) → Mem x l → p x ≡ true → any p l ≡ true
  unfolding any
  any-of_mem [] x m e = absurd (List.not-mem-nil m)
  any-of_mem (y ∷ ys) x m e =
      Or.elim Bool-eq-prop (mem-cons.0 m)
        (λ same. let here : p y ≡ true = subst (λ z. p z ≡ true) same e in ground arith)
        λ later. ground (arith, any-of_mem ys x later e)

  mem-of_any : (l : List A) → any p l ≡ true → ∥ ((x : A) × Mem x l × (p x ≡ true)) ∥₁
  unfolding any
  mem-of_any [] e = cc
  mem-of_any (y ∷ ys) e = elim (Bool-cases (p y)) [
    | inl here ↦ ∣ (y, mem-cons_self, here) ∣₁
    | inr not_here ↦
        ∥∥₁_map (mem-of_any ys (ground arith)) λ (x, m, h). (x, List.mem-cons_of_mem y m, h)
  ]

  -- The test of a list is that some element passes.
  pub any_iff : (l : List A) → (any p l ≡ true) ↔ ∥ ((x : A) × Mem x l × (p x ≡ true)) ∥₁
  any_iff l = (mem-of_any l, λ t. ∥∥₁_elim t Bool-eq-prop λ (x, m, e). any-of_mem l x m e)
