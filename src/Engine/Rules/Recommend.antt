-- ===== src/Engine/Rules/Recommend.antt =====
-- internal/engine/recommend.go, `Recommend`: what is recommended.
use mathlib.Core.Path.{subst}
use mathlib.Core.Logic.{◌∨₁◌, ∨₁_prop, ∥∥₁_elim, ∥∥₁_map, ∥∥₁_prop}
use mathlib.Core.Logic.Or
use mathlib.Core.List.{
  Mem, Mem-prop, mem-cons_self, mem-cons_of_mem, mem-cons, not-mem-nil, Nodup, Nodup-nil,
}
use mirador_rca.Prelude.{
  Bool, true, false, ◌≡◌, ◌≢◌, ◌↔◌, refl, none, some, String, List, [], ◌∷◌, Bool-cases, inl, inr,
  if◌then◌else◌,
}
use mirador_rca.Model.{RedAnchor, TimelineEvent, InvestigationRequest}
use mirador_rca.Engine.Strings.{append_unique}
use mirador_rca.Engine.Strings.Unique.{append_unique_lem}
use mirador_rca.Engine.Rules.{Rule, rule_matches, recommend_from, recommend}

module _ {F : Type 0} (req : InvestigationRequest F) (anchors : List (RedAnchor F))
    (timeline : List (TimelineEvent F)) where
  abbrev pub Matches : Rule → Type 0
  Matches rule = rule_matches rule req anchors timeline ≡ true

  -- A text that some matching rule of the list recommends.
  abbrev pub IsRecommended : List Rule → String → Type 0
  IsRecommended rules x =
      ∥ ((rule : Rule) × Mem rule rules × Matches rule × Mem x rule.recommendations × (x ≢ "")) ∥₁

  -- What one round of the loop has matched.
  after : Rule → List String → List String
  after rule matched =
      if rule_matches rule req anchors timeline
      then append_unique matched rule.recommendations
      else matched

  after-mem :
      (x : String) (rule : Rule) (matched : List String)
      → Mem x (after rule matched)
        ↔ (Mem x matched ∨₁ (Matches rule × Mem x rule.recommendations × (x ≢ "")))
  unfolding after
  after-mem x rule matched =
      let added = (append_unique_lem matched rule.recommendations).1 x in
      elim (Bool-cases (rule_matches rule req anchors timeline)) [
        | inl e ↦ rw e (
          λ m. Or.imp (λ old. old) (λ (k, n). (refl, k, n)) (added.0 m),
          λ o. added.1 (Or.imp (λ old. old) (λ (_, k, n). (k, n)) o),
        )
        | inr e ↦ rw e (λ m. Or.inl m, λ o. Or.elim Mem-prop o (λ m. m) λ (t, _, _). cc)
      ]

  IsRecommended-later :
      {x : String} (rule : Rule) {rules : List Rule}
      → IsRecommended rules x
      → IsRecommended (rule ∷ rules) x
  IsRecommended-later rule t = ∥∥₁_map t λ (r, m, e, k, n). (r, mem-cons_of_mem rule m, e, k, n)

  IsRecommended-cases :
      {x : String} (rule : Rule) {rules : List Rule}
      → IsRecommended (rule ∷ rules) x
      → (Matches rule × Mem x rule.recommendations × (x ≢ "")) ∨₁ IsRecommended rules x
  IsRecommended-cases {x} rule t = ∥∥₁_elim t ∨₁_prop λ (r, m, e, k, n).
      Or.elim ∨₁_prop (mem-cons.0 m)
        (λ same.
          Or.inl (subst (λ q. Matches q × Mem x q.recommendations × (x ≢ "")) same (e, k, n)))
        λ later. Or.inr ∣ (r, later, e, k, n) ∣₁

  recommend_from-mem :
      (x : String) (rules : List Rule) (matched : List String)
      → Mem x (recommend_from rules req anchors timeline matched)
        ↔ (Mem x matched ∨₁ IsRecommended rules x)
  unfolding recommend_from after
  recommend_from-mem x [] matched = (
    λ m. Or.inl m,
    λ o.
        Or.elim Mem-prop o (λ m. m)
          λ t. ∥∥₁_elim t Mem-prop λ (r, m, _, _, _). absurd (not-mem-nil m),
  )
  recommend_from-mem x (rule ∷ rules) matched =
      let (rest_to, rest_from) = recommend_from-mem x rules (after rule matched) in
      let (to, from) = after-mem x rule matched in
      (
        λ m.
            Or.elim ∨₁_prop (rest_to m)
              (λ now.
                Or.imp (λ old. old) (λ (e, k, n). ∣ (rule, mem-cons_self, e, k, n) ∣₁) (to now))
              λ later. Or.inr (IsRecommended-later rule later),
        λ o. rest_from (
            Or.elim ∨₁_prop o (λ old. Or.inl (from (Or.inl old)))
              λ t. Or.imp (λ now. from (Or.inr now)) (λ later. later) (IsRecommended-cases rule t)),
      )

  recommend_from-Nodup :
      (rules : List Rule) (matched : List String)
      → Nodup matched
      → Nodup (recommend_from rules req anchors timeline matched)
  unfolding recommend_from
  recommend_from-Nodup [] matched n = n
  recommend_from-Nodup (rule ∷ rules) matched n =
      recommend_from-Nodup rules _ (step (rule_matches rule req anchors timeline))
    where
      step : (b : Bool) → Nodup (if b then append_unique matched rule.recommendations else matched)
      step true = (append_unique_lem matched rule.recommendations).2 n
      step false = n

  -- The engine recommends the texts of the matching rules that are not empty, and no others, each once;
  -- without an engine it recommends nothing.
  pub recommend_lem :
      (rules : List Rule)
      → ((x : String)
          → Mem x (recommend (some (record { rules = rules })) req anchors timeline)
            ↔ IsRecommended rules x)
        × Nodup (recommend (some (record { rules = rules })) req anchors timeline)
        × (recommend none req anchors timeline ≡ [])
  unfolding recommend
  recommend_lem rules = (
    λ x.
        let (to, from) = recommend_from-mem x rules [] in
        (λ m. Or.resolve_left ∥∥₁_prop (to m) not-mem-nil, λ t. from (Or.inr t)),
    recommend_from-Nodup rules [] Nodup-nil,
    refl,
  )
