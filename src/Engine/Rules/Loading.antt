-- ===== src/Engine/Rules/Loading.antt =====
-- internal/engine/recommend.go, `NewRuleEngine`. Reading the file and decoding YAML are parameters.
use mirador_rca.Prelude.{Option, none, some, String, List, str_eq, if◌then◌else◌}
use mirador_rca.Prelude.Outcome.{Reply, reply, failure}
use mirador_rca.Files.{FileRead, contents, not_found, unreadable}
use mirador_rca.Engine.Rules.{Rule, RuleEngine}

unfoldable pub engine_of : Reply (List Rule) → Reply (Option RuleEngine)
engine_of (reply rules) = reply (some (record { rules = rules }))
engine_of (failure e) = failure e

module _ {D : Type 0} (decode : D → Reply (List Rule)) where
  -- A file that does not exist is no error, but leaves no engine.
  unfoldable pub engine_in : FileRead D → Reply (Option RuleEngine)
  engine_in (contents bytes) = engine_of (decode bytes)
  engine_in (not_found e) = reply none
  engine_in (unreadable e) = failure e

  -- `NewRuleEngine`
  unfoldable pub new_rule_engine : (String → FileRead D) → String → Reply (Option RuleEngine)
  new_rule_engine read_file path = if str_eq path "" then reply none else engine_in (read_file path)
