-- ===== src/Prelude/Canonical.antt =====
-- Sorting by an order in which only equal elements are neither less nor greater: the result depends on
-- the elements alone, not on the order in which they come.
use mathlib.Core.Path.{◌≡◌, refl, sym, ap, subst, ◌∙◌}
use mathlib.Core.Logic.{inl, inr, ∥∥₁_elim}
use mathlib.Core.Bool.{Bool, true, false}
use mathlib.Core.List.{List, [], ◌∷◌, Perm, Permᴰ}
use native.Mathlib.Omega.{arith}
use mirador_rca.Prelude.Tests.{Bool-cases}
use mirador_rca.Prelude.Sort.{IsWeakOrder, insert, sort_stable}

module _ {A : Type 0} (less : A → A → Bool) (order : IsWeakOrder less (λ _. Unit {0}))
    (antisym : (a b : A) → less a b ≡ false → less b a ≡ false → a ≡ b) where
  open order use {asym, not_trans}

  insert-before :
      (x y : A) (l : List A) → less y x ≡ true → insert less x (y ∷ l) ≡ y ∷ insert less x l
  unfolding insert
  insert-before x y l h = rw (h, insert) refl

  insert-here : (x y : A) (l : List A) → less y x ≡ false → insert less x (y ∷ l) ≡ x ∷ y ∷ l
  unfolding insert
  insert-here x y l h = rw (h, insert) refl

  less_trans : (x y z : A) → less z x ≡ false → less z y ≡ true → less x y ≡ true
  less_trans x y z zx zy = elim (Bool-cases (less x y)) [
    | inl h ↦ h
    | inr h ↦ absurd (ground (arith, not_trans z x y tt tt tt zx h, zy))
  ]

  -- Two elements that come before a list.
  insert-two :
      (x y : A) (l : List A)
      → insert less y l ≡ y ∷ l
      → insert less x l ≡ x ∷ l
      → insert less x (y ∷ l) ≡ insert less y (x ∷ l)
  insert-two x y l hy hx = elim (Bool-cases (less y x)) [
    | inl yx ↦ insert-before x y l yx ∙ ap (◌∷◌ y) hx ∙ sym (insert-here y x l (asym y x tt tt yx))
    | inr yx ↦ elim (Bool-cases (less x y)) [
      | inl xy ↦ insert-here x y l yx ∙ ap (◌∷◌ x) (sym hy) ∙ sym (insert-before y x l xy)
      | inr xy ↦ subst (λ z. insert less x (z ∷ l) ≡ insert less z (x ∷ l)) (antisym x y xy yx) refl
    ]
  ]

  insert-apart :
      (x y z : A) (l : List A)
      → less z x ≡ true
      → less z y ≡ false
      → insert less x (insert less y (z ∷ l)) ≡ insert less y (insert less x (z ∷ l))
  insert-apart x y z l zx zy =
      ap (insert less x) (insert-here y z l zy)
      ∙ insert-before x y (z ∷ l) (less_trans y x z zy zx)
      ∙ ap (◌∷◌ y) (insert-before x z l zx)
      ∙ sym (insert-here y z (insert less x l) zy)
      ∙ ap (insert less y) (sym (insert-before x z l zx))

  insert_comm :
      (x y : A) (l : List A) → insert less x (insert less y l) ≡ insert less y (insert less x l)
  unfolding insert
  insert_comm x y [] = insert-two x y [] refl refl
  insert_comm x y (z ∷ l) = elim (Bool-cases (less z x)) [
    | inl zx ↦ elim (Bool-cases (less z y)) [
      | inl zy ↦
          ap (insert less x) (insert-before y z l zy)
          ∙ insert-before x z (insert less y l) zx
          ∙ ap (◌∷◌ z) (insert_comm x y l)
          ∙ sym (insert-before y z (insert less x l) zy)
          ∙ ap (insert less y) (sym (insert-before x z l zx))
      | inr zy ↦ insert-apart x y z l zx zy
    ]
    | inr zx ↦ elim (Bool-cases (less z y)) [
      | inl zy ↦ sym (insert-apart y x z l zy zx)
      | inr zy ↦
          ap (insert less x) (insert-here y z l zy)
          ∙ insert-two x y (z ∷ l) (insert-here y z l zy) (insert-here x z l zx)
          ∙ ap (insert less y) (sym (insert-here x z l zx))
    ]
  ]

  sort_stable-permᴰ : {xs ys : List A} → Permᴰ xs ys → sort_stable less xs ≡ sort_stable less ys
  unfolding sort_stable
  sort_stable-permᴰ Permᴰ.nil = refl
  sort_stable-permᴰ (Permᴰ.cons e p) = λ i. insert less (e i) (sort_stable-permᴰ p i)
  sort_stable-permᴰ (Permᴰ.swap {a} {b} {l} e f) = insert_comm a b (sort_stable less l) ∙ λ i.
      insert less (f i) (insert less (e i) (sort_stable less l))
  sort_stable-permᴰ (Permᴰ.trans p q) = sort_stable-permᴰ p ∙ sort_stable-permᴰ q

  pub sort_stable-same :
      IsSet (List A) → {xs ys : List A} → Perm xs ys → sort_stable less xs ≡ sort_stable less ys
  sort_stable-same set p = ∥∥₁_elim p (set _ _) sort_stable-permᴰ
