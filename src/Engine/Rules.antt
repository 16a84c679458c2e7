-- ===== src/Engine/Rules.antt =====
-- internal/engine/recommend.go: recommendations by rule.
pub mod Recommend
pub mod Loading
use mirador_rca.Prelude.{
  Bool, true, false, not, ◌&&◌, ◌||◌, Option, none, some, String, List, [], ◌∷◌, any, str_eq,
  if◌then◌else◌,
}
use mirador_rca.Prelude.Text.{equal_fold, to_lower, contains}
use mirador_rca.Model.{RedAnchor, TimelineEvent, InvestigationRequest}
use mirador_rca.Engine.Strings.{append_unique}

pub record RuleMatch : Type 0 where
  pub service : String
  pub severity : String
  pub selector_contains : List String

pub record Rule : Type 0 where
  pub id : String
  pub matching : RuleMatch
  pub recommendations : List String

pub record RuleEngine : Type 0 where
  pub rules : List Rule

unfoldable pub is_nil : {A : Type 0} → List A → Bool
is_nil [] = true
is_nil (x ∷ xs) = false

module _ {F : Type 0} where
  -- `serviceMatches`: one loop over the affected services, and one over the anchors.
  unfoldable pub service_matches : String → InvestigationRequest F → List (RedAnchor F) → Bool
  service_matches service req anchors =
      any (λ s. equal_fold service s) req.affected_services
      || any (λ a. equal_fold service a.service) anchors

  unfoldable pub timeline_has_severity : String → List (TimelineEvent F) → Bool
  timeline_has_severity severity events =
      if str_eq severity "" then true else any (λ e. equal_fold severity e.severity) events

  unfoldable pub keyword_in : RedAnchor F → String → Bool
  keyword_in anchor kw = not (str_eq kw "") && contains (to_lower anchor.selector) (to_lower kw)

  unfoldable pub anchors_contain : List String → List (RedAnchor F) → Bool
  anchors_contain [] anchors = true
  anchors_contain (k ∷ ks) anchors = any (λ a. any (keyword_in a) (k ∷ ks)) anchors

  -- The three tests of the loop, each of which passes over the rule.
  unfoldable pub rule_matches :
      Rule → InvestigationRequest F → List (RedAnchor F) → List (TimelineEvent F) → Bool
  rule_matches rule req anchors timeline =
      if not (str_eq rule.matching.service "")
        && not (service_matches rule.matching.service req anchors)
      then false
      else if not (str_eq rule.matching.severity "")
          && not (timeline_has_severity rule.matching.severity timeline)
      then false
      else if not (is_nil rule.matching.selector_contains)
          && not (anchors_contain rule.matching.selector_contains anchors)
      then false
      else true

  pub recommend_from :
      List Rule
      → InvestigationRequest F
      → List (RedAnchor F)
      → List (TimelineEvent F)
      → List String
      → List String
  recommend_from [] req anchors timeline matched = matched
  recommend_from (rule ∷ rules) req anchors timeline matched =
      recommend_from rules req anchors timeline (
        if rule_matches rule req anchors timeline
        then append_unique matched rule.recommendations
        else matched)

  -- `Recommend`; the engine may be nil.
  pub recommend :
      Option RuleEngine
      → InvestigationRequest F
      → List (RedAnchor F)
      → List (TimelineEvent F)
      → List String
  recommend none req anchors timeline = []
  recommend (some e) req anchors timeline = recommend_from e.rules req anchors timeline []
