-- ===== src/Weaviate/Queries.antt =====
-- internal/repo/weaviate_repo.go: the GraphQL texts and the keys of the cache.
use mirador_rca.Prelude.{
  ℕ, Bool, true, false, ◌&&◌, ◌||◌, String, List, [], ◌∷◌, ◌++◌, ltb, ◌==◌, str_eq, if◌then◌else◌,
}
use mirador_rca.Prelude.Int.{ℤ}
use mirador_rca.Prelude.Text.{◌<>◌, codes, format_int}
use mirador_rca.Prelude.Sort.{sort_stable}
use mirador_rca.Model.{Time, is_zero, ListCorrelationsRequest}

-- `strings.Join`
unfoldable pub join : String → List String → String
join separator [] = ""
join separator (s ∷ []) = s
join separator (s ∷ t ∷ l) = s <> (separator <> join separator (t ∷ l))

-- Lines, each of which ends.
abbrev lines : List String → String
lines [] = ""
lines (s ∷ l) = s <> ("\n" <> lines l)

-- `sort.Strings`: texts in the order of their code points, which is that of their bytes.
unfoldable pub codes_less : List ℕ → List ℕ → Bool
codes_less s [] = false
codes_less [] (d ∷ t) = true
codes_less (c ∷ s) (d ∷ t) = ltb c d || (c == d && codes_less s t)

abbrev pub text_less : String → String → Bool
text_less s t = codes_less (codes s) (codes t)

abbrev pub sort_strings : List String → List String
sort_strings l = sort_stable text_less l

-- `cacheSimilarIncidentsKey`
unfoldable pub cache_similar_incidents_key : String → List String → ℤ → String
cache_similar_incidents_key tenant_id symptoms limit =
    "weaviate:similar:" <> (tenant_id <> (":" <> (format_int limit <> (":" <> join "|" symptoms))))

-- `cachePatternsKey`
unfoldable pub cache_patterns_key : String → String → String
cache_patterns_key tenant_id service = "weaviate:patterns:" <> (tenant_id <> (":" <> service))

-- The condition on a path; the texts are put between quotes as they are.
abbrev operand : String → String → String → String → String
operand path operator kind value =
    "{path: [\""
    <> (path
        <> ("\"], operator: " <> (operator <> (", " <> (kind <> (": \"" <> (value <> "\"}")))))))

-- `optionalServiceOperand`
unfoldable pub optional_service_operand : String → String
optional_service_operand service =
    if str_eq service "" then "" else ", " <> operand "services" "ContainsAny" "valueString" service

-- The query of `SimilarIncidents`.
unfoldable pub similar_query : ℤ → String → String
similar_query limit tenant_id =
    lines (
      "{"
      ∷ "          Get {"
      ∷ "            CorrelationRecord("
      ∷ ("              limit: " <> format_int limit)
      ∷ "              where: {"
      ∷ "                operator: And"
      ∷ "                operands: ["
      ∷ ("                  " <> operand "tenantId" "Equal" "valueString" tenant_id)
      ∷ "                ]"
      ∷ "              }"
      ∷ "            ) {"
      ∷ "              correlationId"
      ∷ "              incidentId"
      ∷ "              rootCause"
      ∷ "              confidence"
      ∷ "              affectedServices"
      ∷ "              recommendations"
      ∷ "              createdAt"
      ∷ "            }"
      ∷ "          }"
      ∷ [])
    <> "        }"

-- The query of `FetchPatterns`.
unfoldable pub patterns_query : String → String → String
patterns_query tenant_id service =
    lines (
      "{"
      ∷ "          Get {"
      ∷ "            FailurePattern("
      ∷ "              where: {"
      ∷ "                operator: And"
      ∷ "                operands: ["
      ∷ ("                  " <> operand "tenantId" "Equal" "valueString" tenant_id)
      ∷ ("                  " <> optional_service_operand service)
      ∷ "                ]"
      ∷ "              }"
      ∷ "            ) {"
      ∷ "              patternId"
      ∷ "              name"
      ∷ "              description"
      ∷ "              services"
      ∷ "              anchorTemplates {"
      ∷ "                service"
      ∷ "                signalType"
      ∷ "                selector"
      ∷ "                typicalLeadLag"
      ∷ "                thresholds"
      ∷ "              }"
      ∷ "              prevalence"
      ∷ "              lastSeen"
      ∷ "              quality {"
      ∷ "                precision"
      ∷ "                recall"
      ∷ "              }"
      ∷ "            }"
      ∷ "          }"
      ∷ [])
    <> "        }"

module _ (format_time : Time → String) where
  abbrev service_filter : String → List String
  service_filter service =
      if str_eq service ""
      then []
      else operand "affectedServices" "ContainsAny" "valueString" service ∷ []

  abbrev time_filter : String → Time → List String
  time_filter operator t =
      if is_zero t then [] else operand "createdAt" operator "valueDate" (format_time t) ∷ []

  -- `buildCorrelationWhere`
  unfoldable pub build_correlation_where : ListCorrelationsRequest → String
  build_correlation_where req =
      "where: { operator: And, operands: ["
      <> (join "," (
            (operand "tenantId" "Equal" "valueString" req.tenant_id ∷ [])
            ++ (service_filter req.service
                ++ (time_filter "GreaterThanEqual" req.start
                    ++ time_filter "LessThanEqual" req.end)))
          <> "] }")

  -- The query of `ListCorrelations`.
  unfoldable pub list_query : ℤ → ℤ → ListCorrelationsRequest → String
  list_query limit offset req =
      lines (
        "{"
        ∷ "  Get {"
        ∷ "    CorrelationRecord("
        ∷ ("      limit: " <> format_int limit)
        ∷ ("      offset: " <> format_int offset)
        ∷ ("      " <> build_correlation_where req)
        ∷ "      sort: [{path: \"createdAt\", order: desc}]"
        ∷ "    ) {"
        ∷ "      correlationId"
        ∷ "      incidentId"
        ∷ "      rootCause"
        ∷ "      confidence"
        ∷ "      affectedServices"
        ∷ "      recommendations"
        ∷ "      createdAt"
        ∷ "      redAnchors {"
        ∷ "        service"
        ∷ "        selector"
        ∷ "        dataType"
        ∷ "        timestamp"
        ∷ "        anomalyScore"
        ∷ "        threshold"
        ∷ "      }"
        ∷ "      timeline {"
        ∷ "        time"
        ∷ "        event"
        ∷ "        service"
        ∷ "        severity"
        ∷ "        anomalyScore"
        ∷ "        dataSource"
        ∷ "      }"
        ∷ "    }"
        ∷ "  }"
        ∷ [])
      <> "}"
