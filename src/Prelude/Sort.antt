-- ===== src/Prelude/Sort.antt =====
-- Sorting by a Boolean `less`: what it is to be in order, and the stable sort of
-- `sort.SliceStable`, whose result is the only one that its documentation allows.
use Prim.Native.Nat.{ℕ, zero, suc, ◌≤◌}
use mathlib.Core.Path.{◌≡◌, refl, sym, ap}
use mathlib.Core.Logic.{◌⊎◌, inl, inr}
use mathlib.Core.Bool.{Bool, true, false}
use mathlib.Core.List.{List, [], ◌∷◌, ◌++◌, Perm}
use mathlib.Core.List.Perm
use native.Mathlib.Omega.{arith}
use mirador_rca.Prelude.Tests.{Bool-cases, ltb, if◌then◌else◌}
use mirador_rca.Prelude.Lists.{
  All, length, length-take, take-append-drop, take_all, take, drop, All-take, All-drop, All-perm,
}

module _ {ℓ} {A : Type ℓ} (less : A → A → Bool) where
  -- No element is less than one that stands before it.
  abbrev pub IsSorted : List A → Type 0
  IsSorted [] = Unit
  IsSorted (x ∷ xs) = All (λ y. less y x ≡ false) xs × IsSorted xs

  -- `less` orders the values that satisfy `P`: it is asymmetric, and "not less" is transitive.
  pub record IsWeakOrder {κ} (P : A → Type κ) : Type (ℓ ⊔ κ) where
    pub prop : (a : A) → IsProp (P a)
    pub asym : (a b : A) → P a → P b → less a b ≡ true → less b a ≡ false
    pub not_trans :
        (a b c : A) → P a → P b → P c → less a b ≡ false → less b c ≡ false → less a c ≡ false

  unfoldable pub insert : A → List A → List A
  insert x [] = x ∷ []
  insert x (y ∷ ys) = elim (less y x) [ true ↦ y ∷ insert x ys | false ↦ x ∷ y ∷ ys ]

  unfoldable pub sort_stable : List A → List A
  unfolding insert
  sort_stable [] = []
  sort_stable (x ∷ xs) = insert x (sort_stable xs)

  pub insert-perm : (x : A) (l : List A) → Perm (insert x l) (x ∷ l)
  unfolding insert
  insert-perm x [] = Perm.rfl
  insert-perm x (y ∷ ys) = elim (Bool-cases (less y x)) [
    | inl h ↦ rw (h, insert) (Perm.trans (Perm.cons y (insert-perm x ys)) (Perm.swap x y ys))
    | inr h ↦ rw (h, insert) Perm.rfl
  ]

  pub sort_stable-perm : (l : List A) → Perm (sort_stable l) l
  unfolding sort_stable
  sort_stable-perm [] = Perm.rfl
  sort_stable-perm (x ∷ xs) =
      Perm.trans (insert-perm x (sort_stable xs)) (Perm.cons x (sort_stable-perm xs))

  module _ {κ} {P : A → Type κ} (order : IsWeakOrder P) where
    open order use {prop, asym, not_trans}

    -- What stands after `y` is not less than `x` either, if `y` is not.
    below_tail :
        (x y : A) (ys : List A)
        → P x
        → P y
        → All P ys
        → less y x ≡ false
        → All (λ z. less z y ≡ false) ys
        → All (λ z. less z x ≡ false) ys
    below_tail x y [] px py ps h hs = tt
    below_tail x y (z ∷ zs) px py (pz, ps) h (k, ks) =
        (not_trans z y x pz py px k h, below_tail x y zs px py ps h ks)

    insert-IsSorted : (x : A) (l : List A) → P x → All P l → IsSorted l → IsSorted (insert x l)
    unfolding insert
    insert-IsSorted x [] px ps s = (tt, tt)
    insert-IsSorted x (y ∷ ys) px (py, ps) (h, hs) = elim (Bool-cases (less y x)) [
      | inl e ↦
          rw (e, insert)
            (
              All-perm (λ z. less z y ≡ false) (λ z. hlevel) (Perm.symm (insert-perm x ys))
                  (asym y x py px e, h),
              insert-IsSorted x ys px ps hs,
            )
      | inr e ↦ rw (e, insert) ((e, below_tail x y ys px py ps e h), (h, hs))
    ]

    pub sort_stable-IsSorted : (l : List A) → All P l → IsSorted (sort_stable l)
    unfolding sort_stable
    sort_stable-IsSorted [] ps = tt
    sort_stable-IsSorted (x ∷ xs) (px, ps) =
        insert-IsSorted x (sort_stable xs) px (All-perm P prop (Perm.symm (sort_stable-perm xs)) ps)
          (sort_stable-IsSorted xs ps)

  pub IsSorted-take : (n : ℕ) (l : List A) → IsSorted l → IsSorted (take n l)
  IsSorted-take zero l s = tt
  IsSorted-take (suc n) [] s = tt
  IsSorted-take (suc n) (x ∷ xs) (h, s) = (All-take _ n xs h, IsSorted-take n xs s)

  -- Nothing that a cut to `n` elements drops is less than something that it keeps.
  pub IsSorted-cut :
      (n : ℕ) (l : List A)
      → IsSorted l
      → All (λ x. All (λ y. less y x ≡ false) (drop n l)) (take n l)
  IsSorted-cut zero l s = tt
  IsSorted-cut (suc n) [] s = tt
  IsSorted-cut (suc n) (x ∷ xs) (h, s) = (All-drop _ n xs h, IsSorted-cut n xs s)

  -- `top` are the first of `all` by `less`, in order: with `rest` they are a rearrangement of `all`,
  -- there are at most `n` of them, and exactly `n` where something is left in `rest`, and nothing in
  -- `rest` is less than one of them.
  pub record IsTop (n : ℕ) (all top rest : List A) : Type ℓ where
    pub split : Perm (top ++ rest) all
    pub few : length top ≤ n
    pub full : (rest ≡ []) ⊎ (length top ≡ n)
    pub sorted : IsSorted top
    pub best : All (λ x. All (λ y. less y x ≡ false) rest) top

  drop-full : (n : ℕ) (l : List A) → (drop n l ≡ []) ⊎ (length (take n l) ≡ n)
  drop-full zero l = inr refl
  drop-full (suc n) [] = inl refl
  drop-full (suc n) (x ∷ xs) = elim (drop-full n xs) [ inl e ↦ inl e | inr e ↦ inr (ap suc e) ]

  -- The cut of a sorted list, as the program writes it.
  pub IsTop-cut :
      (n : ℕ) (l all : List A)
      → IsSorted l
      → Perm l all
      → IsTop n all (if ltb n (length l) then take n l else l) (drop n l)
  IsTop-cut n l all s p = rw same (record {
    split = rw (take-append-drop n l) p;
    few = omega (arith, length-take n l);
    full = drop-full n l;
    sorted = IsSorted-take n l s;
    best = IsSorted-cut n l s;
  })
    where
      same : (if ltb n (length l) then take n l else l) ≡ take n l
      same = elim (Bool-cases (ltb n (length l))) [
        | inl e ↦ rw e
        | inr e ↦ rw e (sym (take_all n l (ground arith)))
      ]
