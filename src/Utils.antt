-- ===== src/Utils.antt =====
-- internal/utils: errors.go, timeutils.go and logger.go.
use mirador_rca.Prelude.{
  ℕ, Bool, ◌/◌, ◌%◌, ◌≡◌, Option, none, some, String, str_eq, arith, if◌then◌else◌,
}
use mirador_rca.Prelude.Int.{pos, pos_part, ◌-ℤ◌}
use mirador_rca.Prelude.Text.{◌<>◌, codes, to_lower, codes_eq}
use mirador_rca.Prelude.Outcome.{Reply, reply, failure}
use mirador_rca.Double.{Double}
use mirador_rca.Model.{Time, before}

pub record AppError : Type 0 where
  pub op : String
  pub msg : String
  pub wrapped_error : Option String

-- `AppError.Error`
unfoldable pub error_text : AppError → String
error_text e = elim e.wrapped_error [
  | none ↦ e.op <> (": " <> e.msg)
  | some cause ↦ e.op <> (": " <> (e.msg <> (": " <> cause)))
]

-- `ParseRFC3339`; `time.Parse` is a parameter.
unfoldable pub parse_rfc3339 : (String → Reply Time) → String → Reply Time
parse_rfc3339 parse_time value =
    if str_eq value ""
    then failure "empty time value"
    else elim (parse_time value) [ reply t ↦ reply t | failure e ↦ failure ("parse time: " <> e) ]

module _ {F : Type 0} ⦃d : Double F⦄ where
  -- `Duration.Minutes` of a duration that is not negative: whole minutes, and the rest of the nanoseconds.
  unfoldable pub minutes : ℕ → F
  minutes n =
      d.add (d.of_int (pos (n / 60_000_000_000)))
        (d.div (d.of_int (pos (n % 60_000_000_000))) (d.lit 60_000_000_000 0))

  -- `DurationMinutes`
  pub duration_minutes : Time → Time → F
  duration_minutes start end =
      if before end start
      then minutes (pos_part (start -ℤ end))
      else minutes (pos_part (end -ℤ start))

  -- The two times can be given in either order.
  pub duration_minutes_comm : (s t : Time) → duration_minutes s t ≡ duration_minutes t s
  unfolding duration_minutes ◌-ℤ◌
  duration_minutes_comm s t = ground arith

pub data LogLevel : Type 0 where
  level_debug level_info level_warn level_error : LogLevel

-- The level that `NewLogger` chooses.
unfoldable pub handler_level : String → LogLevel
handler_level level =
    let lower = to_lower level in
    if codes_eq lower (codes "debug")
    then level_debug
    else if codes_eq lower (codes "warn")
    then level_warn
    else if codes_eq lower (codes "error")
    then level_error
    else level_info

pub data LogHandler : Type 0 where
  json_handler text_handler : LogHandler

-- `NewLogger`: the handler of the library, and its level.
unfoldable pub new_logger : String → Bool → LogHandler × LogLevel
new_logger level json = (if json then json_handler else text_handler, handler_level level)

-- `Commit`
abbrev pub commit : String
commit = "dev"
