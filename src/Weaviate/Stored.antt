-- ===== src/Weaviate/Stored.antt =====
-- internal/repo/weaviate_repo.go: a correlation or a pattern that is stored, and its row read back.
use mirador_rca.Prelude.{
  ◌*◌, ◌/◌, ◌<◌, ◌≡◌, refl, inl, inr, Option, some, String, map, All, All-imp, All-of_forall,
}
use mirador_rca.Prelude.Int.{pos, negsuc}
use mirador_rca.Prelude.Text.{equal_fold, to_lower, codes_eq}
use mirador_rca.Double.{Double}
use mirador_rca.Json.{find, read_object}
use mirador_rca.Json.Reading.{read_items-items_of, read_items-texts}
use mirador_rca.Model.{
  Time, RedAnchor, TimelineEvent, CorrelationResult, AnchorTemplate, FailurePattern,
}
use mirador_rca.Service.Reading.{IsDataType, IsSeverity}
use mirador_rca.Weaviate.Properties.{
  time_or_now, template_properties, anchor_properties, event_properties, build_pattern_properties,
  build_correlation_properties,
}
use mirador_rca.Weaviate.Records.{
  parse_data_type, parse_severity, template_from, quality_from, pattern_from, anchor_from,
  event_from, correlation_from,
}

-- `time.RFC3339` has whole seconds, and four digits for the year.
abbrev pub to_second : Time → Time
to_second (pos n) = pos (n / 1_000_000_000 * 1_000_000_000)
to_second (negsuc n) = negsuc n

abbrev pub IsPrintable : Time → Type 0
IsPrintable (pos n) = n < 315_537_897_600 * 1_000_000_000
IsPrintable (negsuc n) = ⊥

parse_data_type-IsDataType : (t : String) → IsDataType t → parse_data_type t ≡ t
unfolding parse_data_type to_lower codes_eq
parse_data_type-IsDataType t (inl e) = rw e refl
parse_data_type-IsDataType t (inr (inl e)) = rw e refl
parse_data_type-IsDataType t (inr (inr e)) = rw e refl

parse_severity-IsSeverity : (s : String) → IsSeverity s → parse_severity s ≡ s
unfolding parse_severity to_lower codes_eq
parse_severity-IsSeverity s (inl e) = rw e refl
parse_severity-IsSeverity s (inr (inl e)) = rw e refl
parse_severity-IsSeverity s (inr (inr (inl e))) = rw e refl
parse_severity-IsSeverity s (inr (inr (inr e))) = rw e refl

module _ {F : Type 0} where
  abbrev anchor_as_stored : RedAnchor F → RedAnchor F
  anchor_as_stored a = record a { timestamp = to_second a.timestamp }

  abbrev event_as_stored : TimelineEvent F → TimelineEvent F
  event_as_stored e = record e { time = to_second e.time }

  -- A correlation whose times can be printed, and whose data types and severities have a name.
  abbrev pub IsStorable : Time → CorrelationResult F → Type 0
  IsStorable now c =
      IsPrintable (time_or_now now c.created_at)
      × All (λ a. IsDataType a.data_type × IsPrintable a.timestamp) c.red_anchors
      × All (λ e. IsSeverity e.severity × IsDataType e.data_source × IsPrintable e.time) c.timeline

  -- Its times are cut to whole seconds, and the time of the call stands in for one that is not set.
  abbrev pub as_stored : Time → CorrelationResult F → CorrelationResult F
  as_stored now c = record c {
    created_at = to_second (time_or_now now c.created_at);
    red_anchors = map anchor_as_stored c.red_anchors;
    timeline = map event_as_stored c.timeline;
  }

module _ {F : Type 0} ⦃d : Double F⦄ where
  -- A template whose threshold is lost.
  abbrev without_threshold : AnchorTemplate F → AnchorTemplate F
  without_threshold a = record a { threshold = d.lit 0 0 }

  abbrev pub pattern_as_stored : Time → FailurePattern F → FailurePattern F
  pattern_as_stored now p = record p {
    last_seen = to_second (time_or_now now p.last_seen);
    anchor_templates = map without_threshold p.anchor_templates;
  }

  template_from-template_properties :
      (a : AnchorTemplate F)
      → read_object template_from (template_properties a) ≡ some (without_threshold a)
  unfolding template_from template_properties find equal_fold to_lower codes_eq
  template_from-template_properties a = refl

module _ {F : Type 0} ⦃d : Double F⦄ (format_time : Time → String)
    (parse_time : String → Option Time)
    (parse-format : (t : Time)
      → IsPrintable t
      → parse_time (format_time t) ≡ some (to_second t)) where
  anchor_from-anchor_properties :
      (a : RedAnchor F)
      → IsDataType a.data_type × IsPrintable a.timestamp
      → read_object (anchor_from parse_time) (anchor_properties format_time a)
        ≡ some (anchor_as_stored a)
  unfolding anchor_from anchor_properties find equal_fold to_lower codes_eq
  anchor_from-anchor_properties a (known, printable) =
      rw (parse-format a.timestamp printable, parse_data_type-IsDataType a.data_type known) refl

  event_from-event_properties :
      (e : TimelineEvent F)
      → IsSeverity e.severity × IsDataType e.data_source × IsPrintable e.time
      → read_object (event_from parse_time) (event_properties format_time e)
        ≡ some (event_as_stored e)
  unfolding event_from event_properties find equal_fold to_lower codes_eq
  event_from-event_properties e (severe, known, printable) =
      rw
        (
          parse-format e.time printable,
          parse_data_type-IsDataType e.data_source known,
          parse_severity-IsSeverity e.severity severe,
        )
        refl

  -- A correlation that is stored and read back is the same, but for its times, which are cut to whole
  -- seconds, where the time of the call stands in for a creation time that is not set. This holds for
  -- times within the four digits of a year, and for data types and severities that the program names.
  pub correlation_from-build :
      (now : Time) (tenant_id : String) (c : CorrelationResult F)
      → IsStorable now c
      → read_object
          (correlation_from parse_time)
          (build_correlation_properties format_time now tenant_id c)
        ≡ some (as_stored now c)
  unfolding correlation_from build_correlation_properties find equal_fold to_lower codes_eq
  correlation_from-build now tenant_id c (created, anchors, events) =
      rw
        (
          read_items-texts F c.affected_services,
          read_items-texts F c.recommendations,
          read_items-items_of (read_object (anchor_from parse_time)) (anchor_properties format_time)
              anchor_as_stored c.red_anchors
              (All-imp _ anchor_from-anchor_properties c.red_anchors anchors),
          read_items-items_of (read_object (event_from parse_time)) (event_properties format_time)
              event_as_stored c.timeline (All-imp _ event_from-event_properties c.timeline events),
          parse-format (time_or_now now c.created_at) created,
        )
        refl

  -- A pattern that is stored and read back is the same, but for the time, which is cut to whole seconds,
  -- and the thresholds of its templates, which are all zero: they are stored under another name than
  -- they are asked for. This holds for a time within the four digits of a year.
  pub pattern_from-build :
      (now : Time) (tenant_id : String) (p : FailurePattern F)
      → IsPrintable (time_or_now now p.last_seen)
      → read_object (pattern_from parse_time) (build_pattern_properties format_time now tenant_id p)
        ≡ some (pattern_as_stored now p)
  unfolding pattern_from quality_from build_pattern_properties find equal_fold to_lower codes_eq
  pattern_from-build now tenant_id p printable =
      rw
        (
          read_items-texts F p.services,
          read_items-items_of (read_object template_from) template_properties without_threshold
              p.anchor_templates
              (All-of_forall _ template_from-template_properties p.anchor_templates),
          parse-format (time_or_now now p.last_seen) printable,
        )
        refl
