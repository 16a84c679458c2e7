-- ===== src/Weaviate/Properties.antt =====
-- internal/repo/weaviate_repo.go: the properties that are stored of patterns, feedback and correlations.
use mirador_rca.Prelude.{String, [], ◌∷◌, if◌then◌else◌}
use mirador_rca.Json.{Json, bool, number, text, array, object, items_of, texts, fields_of}
use mirador_rca.Model.{
  Time, is_zero, AnchorTemplate, FailurePattern, Feedback, RedAnchor, TimelineEvent,
  CorrelationResult,
}

-- A time that is not set is the time of the call.
abbrev pub time_or_now : Time → Time → Time
time_or_now now t = if is_zero t then now else t

module _ {F : Type 0} (format_time : Time → String) (now : Time) where
  unfoldable pub build_feedback_properties : Feedback → Json F
  build_feedback_properties feedback = object (
      fields_of (
        ("tenantId", text feedback.tenant_id)
        ∷ ("correlationId", text feedback.correlation_id)
        ∷ ("correct", bool feedback.correct)
        ∷ ("notes", text feedback.notes)
        ∷ ("submittedAt", text (format_time (time_or_now now feedback.submitted_at)))
        ∷ []))

module _ {F : Type 0} where
  unfoldable pub template_properties : AnchorTemplate F → Json F
  template_properties anchor = object (
      fields_of (
        ("service", text anchor.service)
        ∷ ("signalType", text anchor.signal_type)
        ∷ ("selector", text anchor.selector)
        ∷ ("typicalLeadLag", number anchor.typical_lag)
        ∷ ("threshold", number anchor.threshold)
        ∷ []))

module _ {F : Type 0} (format_time : Time → String) where
  unfoldable pub anchor_properties : RedAnchor F → Json F
  anchor_properties anchor = object (
      fields_of (
        ("service", text anchor.service)
        ∷ ("selector", text anchor.selector)
        ∷ ("dataType", text anchor.data_type)
        ∷ ("timestamp", text (format_time anchor.timestamp))
        ∷ ("anomalyScore", number anchor.anomaly_score)
        ∷ ("threshold", number anchor.threshold)
        ∷ []))

  unfoldable pub event_properties : TimelineEvent F → Json F
  event_properties event = object (
      fields_of (
        ("time", text (format_time event.time))
        ∷ ("event", text event.event)
        ∷ ("service", text event.service)
        ∷ ("severity", text event.severity)
        ∷ ("anomalyScore", number event.anomaly_score)
        ∷ ("dataSource", text event.data_source)
        ∷ []))

  unfoldable pub build_pattern_properties : Time → String → FailurePattern F → Json F
  build_pattern_properties now tenant_id pattern = object (
      fields_of (
        ("patternId", text pattern.id)
        ∷ ("tenantId", text tenant_id)
        ∷ ("name", text pattern.name)
        ∷ ("description", text pattern.description)
        ∷ ("services", texts pattern.services)
        ∷ ("prevalence", number pattern.prevalence)
        ∷ ("lastSeen", text (format_time (time_or_now now pattern.last_seen)))
        ∷ ("anchorTemplates", array (items_of template_properties pattern.anchor_templates))
        ∷ (
          "quality",
          object (
              fields_of
                (("precision", number pattern.precision) ∷ ("recall", number pattern.recall) ∷ [])),
        )
        ∷ []))

  unfoldable pub build_correlation_properties : Time → String → CorrelationResult F → Json F
  build_correlation_properties now tenant_id correlation = object (
      fields_of (
        ("correlationId", text correlation.correlation_id)
        ∷ ("incidentId", text correlation.incident_id)
        ∷ ("tenantId", text tenant_id)
        ∷ ("rootCause", text correlation.root_cause)
        ∷ ("confidence", number correlation.confidence)
        ∷ ("affectedServices", texts correlation.affected_services)
        ∷ ("recommendations", texts correlation.recommendations)
        ∷ ("createdAt", text (format_time (time_or_now now correlation.created_at)))
        ∷ ("redAnchors", array (items_of anchor_properties correlation.red_anchors))
        ∷ ("timeline", array (items_of event_properties correlation.timeline))
        ∷ []))
