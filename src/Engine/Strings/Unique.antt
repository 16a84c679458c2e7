-- ===== src/Engine/Strings/Unique.antt =====
-- What `uniqueStrings` and `appendUnique` return: which texts, that none occurs twice, and how the two
-- loops agree.
use mathlib.Core.Path.{subst}
use mathlib.Core.Logic.{◌∨₁◌}
use mathlib.Core.Logic.Or
use mathlib.Core.List.{
  Mem, Mem-prop, mem-cons, mem-cons_self, mem-cons_of_mem, not-mem-nil, Nodup, Nodup-nil,
  Nodup-cons, append_assoc, append-nil,
}
use mathlib.Core.HLevel.{×_prop, Π_prop, ⊥_prop}
use mirador_rca.Prelude.{
  Bool, true, false, not, ◌||◌, ◌&&◌, ◌≡◌, ◌≢◌, ◌↔◌, refl, sym, ◌∙◌, String, List, [], ◌∷◌, ◌++◌,
  str_eq, str_eq_iff, arith, Bool-cases, Bool-eq-prop, inl, inr, if◌then◌else◌,
}
use mirador_rca.Engine.Strings.{in_set, unique_from, unique_strings, append_from, append_unique}

-- The test of a set is membership.
pub in_set_iff : (x : String) (l : List String) → (in_set x l ≡ true) ↔ Mem x l
unfolding in_set
in_set_iff x [] = (λ e. cc, λ m. absurd (not-mem-nil m))
in_set_iff x (y ∷ ys) = (
  λ e. elim (Bool-cases (str_eq x y)) [
    | inl same ↦ subst (λ z. Mem x (z ∷ ys)) ((str_eq_iff x y).0 same) mem-cons_self
    | inr other ↦ mem-cons_of_mem y ((in_set_iff x ys).0 (ground arith))
  ],
  λ m.
      Or.elim Bool-eq-prop (mem-cons.0 m) (λ e. ground (arith, (str_eq_iff x y).1 e))
        λ h. ground (arith, (in_set_iff x ys).1 h),
)

-- The two loops are one.
unique_from-eq-append_from :
    (seen result values : List String)
    → unique_from seen result values ≡ append_from seen result values
unfolding unique_from append_from
unique_from-eq-append_from seen result [] = refl
unique_from-eq-append_from seen result (v ∷ vs) = ground (
  arith,
  unique_from-eq-append_from seen result vs,
  unique_from-eq-append_from (v ∷ seen) (result ++ v ∷ []) vs,
)

pub in_set-append :
    (x : String) (a b : List String) → in_set x (a ++ b) ≡ (in_set x a || in_set x b)
unfolding in_set
in_set-append x [] b = refl
in_set-append x (y ∷ ys) b = ground (arith, in_set-append x ys b)

in_set_grows :
    (seen existing : List String) (v : String)
    → ((y : String) → in_set y seen ≡ in_set y existing)
    → (y : String) → in_set y (v ∷ seen) ≡ in_set y (existing ++ v ∷ [])
unfolding in_set
in_set_grows seen existing v h y = ground (arith, h y, in_set-append y existing (v ∷ []))

-- The loop keeps what it was given, and adds each text that is not empty.
in_set-append_from :
    (x : String) (seen existing items : List String)
    → ((y : String) → in_set y seen ≡ in_set y existing)
    → in_set x (append_from seen existing items)
      ≡ (in_set x existing || (in_set x items && not (str_eq x "")))
unfolding append_from in_set
in_set-append_from x seen existing [] h = ground arith
in_set-append_from x seen existing (v ∷ vs) h = ground (
  arith,
  h v,
  str_eq_iff x v,
  str_eq_iff v "",
  str_eq_iff x "",
  in_set-append x existing (v ∷ []),
  in_set-append_from x seen existing vs h,
  in_set-append_from x (v ∷ seen) (existing ++ v ∷ []) vs (in_set_grows seen existing v h),
)

-- No text stands again behind itself.
abbrev pub IsDistinct : List String → Type 0
IsDistinct [] = Unit
IsDistinct (x ∷ xs) = (in_set x xs ≡ false) × IsDistinct xs

pub IsDistinct-append :
    (l : List String) (v : String) → IsDistinct l → in_set v l ≡ false → IsDistinct (l ++ v ∷ [])
unfolding in_set
IsDistinct-append [] v d h = ground arith
IsDistinct-append (x ∷ xs) v (d, ds) h = (
  ground (arith, in_set-append x xs (v ∷ []), str_eq_iff x v, str_eq_iff v x),
  IsDistinct-append xs v ds (ground arith),
)

-- One round of the loop either skips the text, or takes a text that the set has not.
round :
    (P : List String → Type 0) (empty old : Bool) (skip take : List String)
    → P skip
    → (old ≡ false → P take)
    → P (if empty then skip else if old then skip else take)
round P true old skip take p q = p
round P false true skip take p q = p
round P false false skip take p q = q refl

append_from-IsDistinct :
    (seen existing items : List String)
    → ((y : String) → in_set y seen ≡ in_set y existing)
    → IsDistinct existing
    → IsDistinct (append_from seen existing items)
unfolding append_from
append_from-IsDistinct seen existing [] h d = d
append_from-IsDistinct seen existing (v ∷ vs) h d =
    round IsDistinct (str_eq v "") (in_set v seen) _ _ (append_from-IsDistinct seen existing vs h d)
      λ new.
        append_from-IsDistinct (v ∷ seen) (existing ++ v ∷ []) vs (in_set_grows seen existing v h)
          (IsDistinct-append existing v d (sym (h v) ∙ new))

pub IsDistinct→Nodup : (l : List String) → IsDistinct l → Nodup l
IsDistinct→Nodup [] d = Nodup-nil
IsDistinct→Nodup (x ∷ xs) (d, ds) =
    Nodup-cons.1 (λ m. cc ((in_set_iff x xs).1 m), IsDistinct→Nodup xs ds)

Nodup→IsDistinct : (l : List String) → Nodup l → IsDistinct l
Nodup→IsDistinct [] n = tt
Nodup→IsDistinct (x ∷ xs) n =
    let (fresh, rest) = Nodup-cons.0 n in
    (
      elim (Bool-cases (in_set x xs)) [
        | inl old ↦ absurd (fresh ((in_set_iff x xs).0 old))
        | inr new ↦ new
      ],
      Nodup→IsDistinct xs rest,
    )

-- A text that is in a list with no empty texts and none of the seen ones is taken, so the whole list is.
append_from-fresh :
    (seen existing items : List String)
    → IsDistinct items
    → in_set "" items ≡ false
    → ((y : String) → in_set y items ≡ true → in_set y seen ≡ false)
    → append_from seen existing items ≡ existing ++ items
unfolding append_from in_set
append_from-fresh seen existing [] d e f = sym (append-nil existing)
append_from-fresh seen existing (v ∷ vs) (d, ds) e f =
    let new : in_set v seen ≡ false = f v (ground (arith, str_eq_iff v v)) in
    let full : str_eq v "" ≡ false = ground (arith, str_eq_iff v "", str_eq_iff "" v) in
    let rest =
      append_from-fresh (v ∷ seen) (existing ++ v ∷ []) vs ds (ground arith)
        λ y m. ground (arith, f y, str_eq_iff y v) in
    rw (full, new) (rest ∙ append_assoc existing (v ∷ []) vs)

-- What the loop adds stands behind what it was given.
append_from-suffix :
    (seen existing items : List String)
    → (added : List String) × (append_from seen existing items ≡ existing ++ added)
unfolding append_from
append_from-suffix seen existing [] = ([], sym (append-nil existing))
append_from-suffix seen existing (v ∷ vs) =
    round (λ l. (added : List String) × (l ≡ existing ++ added)) (str_eq v "") (in_set v seen) _ _
      (append_from-suffix seen existing vs)
      λ _.
        let (added, e) = append_from-suffix (v ∷ seen) (existing ++ v ∷ []) vs in
        (v ∷ added, e ∙ append_assoc existing (v ∷ []) added)

mem-append_unique :
    (x : String) (existing additions : List String)
    → Mem x (append_unique existing additions) ↔ (Mem x existing ∨₁ (Mem x additions × (x ≢ "")))
unfolding append_unique
mem-append_unique x existing additions =
    let out = append_from existing existing additions in
    let e = in_set-append_from x existing existing additions (λ y. refl) in
    (
      λ m.
          let found : in_set x out ≡ true = (in_set_iff x out).1 m in
          elim (Bool-cases (in_set x existing)) [
            | inl old ↦ Or.inl ((in_set_iff x existing).0 old)
            | inr new ↦ Or.inr (
              (in_set_iff x additions).0 (ground arith),
              λ q. ground (arith, (str_eq_iff x "").1 q),
            )
          ],
      λ o. (in_set_iff x out).0 (
          Or.elim Bool-eq-prop o (λ m. ground (arith, (in_set_iff x existing).1 m))
            λ (m, n). ground (arith, (in_set_iff x additions).1 m, str_eq_iff x "")),
    )

-- `appendUnique` leaves the existing texts where they are and adds texts behind them: its result holds
-- the existing texts and the additions that are not empty, and no others, and no text twice if none
-- of the existing ones occurs twice.
pub append_unique_lem :
    (existing additions : List String)
    → ((added : List String) × (append_unique existing additions ≡ existing ++ added))
      × ((x : String)
          → Mem x (append_unique existing additions)
            ↔ (Mem x existing ∨₁ (Mem x additions × (x ≢ ""))))
      × (Nodup existing → Nodup (append_unique existing additions))
unfolding append_unique
append_unique_lem existing additions = (
  append_from-suffix existing existing additions,
  λ x. mem-append_unique x existing additions,
  λ n. IsDistinct→Nodup (append_from existing existing additions) (
      append_from-IsDistinct existing existing additions (λ y. refl) (Nodup→IsDistinct existing n)),
)

-- `uniqueStrings` is `appendUnique` onto nothing.
pub unique_strings-eq-append_unique :
    (values : List String) → unique_strings values ≡ append_unique [] values
unfolding unique_strings append_unique
unique_strings-eq-append_unique values = unique_from-eq-append_from [] [] values

append_unique_idem :
    (values : List String) → append_unique [] (append_unique [] values) ≡ append_unique [] values
unfolding append_unique in_set
append_unique_idem values =
    append_from-fresh [] [] (append_from [] [] values)
      (append_from-IsDistinct [] [] values (λ y. refl) tt)
      (ground (arith, in_set-append_from "" [] [] values (λ y. refl), str_eq_iff "" "")) λ y m. refl

-- `uniqueStrings` returns the texts of its argument that are not empty, and no others, each once; and
-- it changes nothing when it is applied again.
pub unique_strings_lem :
    (values : List String)
    → ((x : String) → Mem x (unique_strings values) ↔ (Mem x values × (x ≢ "")))
      × Nodup (unique_strings values)
      × (unique_strings (unique_strings values) ≡ unique_strings values)
unique_strings_lem values = rw (unique_strings-eq-append_unique values) (
  λ x. (
    λ m.
        Or.resolve_left (×_prop Mem-prop (Π_prop λ _. ⊥_prop)) ((mem-append_unique x [] values).0 m)
          not-mem-nil,
    λ p. (mem-append_unique x [] values).1 (Or.inr p),
  ),
  (append_unique_lem [] values).2 Nodup-nil,
  unique_strings-eq-append_unique (append_unique [] values) ∙ append_unique_idem values,
)
