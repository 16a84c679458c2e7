-- ===== src/Tests/Store.antt =====
-- A store behind Weaviate's interface with one correlation, and a cache of one entry.
use mirador_rca.Prelude.{
  ◌*◌, ◌/◌, ◌≡◌, ap, ◌∙◌, true, Option, none, some, String, List, [], ◌∷◌, str_eq, if◌then◌else◌,
  arith,
}
use mirador_rca.Prelude.Int.{ℤ, pos, negsuc, pos_part}
use mirador_rca.Prelude.Text.{codes, format_int}
use mirador_rca.Prelude.Outcome.{Reply, reply, failure}
use mirador_rca.Double.Fixed.{Fixed}
use mirador_rca.Json.{Json, text, array, object, field, items_of, fields_of}
use mirador_rca.Model.{
  Time, CorrelationResult, FailurePattern, ListCorrelationsRequest, severity_high, data_type_traces,
  data_type_logs,
}
use mirador_rca.Cache.Resp.{atoi}
use mirador_rca.Cache.Resp.Decimal.{atoi-itoa}
use mirador_rca.Cache.Provider.{Provider}
use mirador_rca.Http.{HttpRequest, HttpResponse}
use mirador_rca.Weaviate.{Outside, WeaviateRepo}
use mirador_rca.Weaviate.Properties.{build_correlation_properties}
use mirador_rca.Weaviate.Queries.{list_query}
use mirador_rca.Weaviate.Stored.{IsPrintable, to_second}
use mirador_rca.Weaviate.Tokens.{codes-format_int}

pub data Body : Type 0 where
  json_body : Json Fixed → Body
  incidents_body : List (CorrelationResult Fixed) → Body
  patterns_body : List (FailurePattern Fixed) → Body

-- Times as the digits of their seconds.
abbrev pub print_time : Time → String
print_time (pos n) = format_int (pos (n / 1_000_000_000))
print_time (negsuc n) = ""

abbrev of_seconds : Option ℤ → Option Time
of_seconds none = none
of_seconds (some s) = some (pos (pos_part s * 1_000_000_000))

abbrev pub read_digits : String → Option Time
read_digits s = of_seconds (atoi (codes s))

pub read_digits-print_time :
    (t : Time) → IsPrintable t → read_digits (print_time t) ≡ some (to_second t)
read_digits-print_time (pos n) h =
    ap (λ l. of_seconds (atoi l)) (codes-format_int (n / 1_000_000_000))
    ∙ ap of_seconds (atoi-itoa (n / 1_000_000_000) (omega arith))
read_digits-print_time (negsuc n) h = elim h [ ]

abbrev pub correlation : CorrelationResult Fixed
correlation = record {
  correlation_id = "c-1";
  incident_id = "i-1";
  root_cause = "payments";
  confidence = some (pos 700);
  affected_services = "checkout" ∷ "payments" ∷ [];
  red_anchors =
      record {
        service = "payments";
        selector = "traces:pay";
        data_type = data_type_traces;
        timestamp = pos 5_000_000_123;
        anomaly_score = some (pos 3000);
        threshold = some (pos 2000);
      }
      ∷ [];
  timeline =
      record {
        time = pos 6_000_000_000;
        event = "Log anomaly";
        service = "checkout";
        severity = severity_high;
        anomaly_score = some (pos 3000);
        data_source = data_type_logs;
      }
      ∷ [];
  recommendations = "Roll back" ∷ [];
  created_at = pos 7_000_000_000;
}

abbrev pub pattern : FailurePattern Fixed
pattern = record {
  id = "p-1";
  name = "Slow payments";
  description = "";
  services = "payments" ∷ [];
  anchor_templates =
      record {
        service = "payments";
        signal_type = "metrics";
        selector = "cpu";
        typical_lag = some (pos 0);
        threshold = some (pos 800);
      }
      ∷ [];
  prevalence = some (pos 500);
  last_seen = pos 3_000_000_000;
  precision = some (pos 0);
  recall = some (pos 0);
}

abbrev pub list_request : ListCorrelationsRequest
list_request = record {
  tenant_id = "tenant";
  service = "checkout";
  start = pos 0;
  end = pos 0;
  page_size = pos 1;
  page_token = "";
}

-- The answer with these rows.
abbrev pub answer_of : List (Json Fixed) → Body
answer_of rows = json_body (
    object (
      fields_of (
        (
          "data",
          object (
              fields_of (
                (
                  "Get",
                  object (fields_of (("CorrelationRecord", array (items_of (λ r. r) rows)) ∷ [])),
                )
                ∷ [])),
        )
        ∷ [])))

abbrev query_in : Body → String
query_in (json_body (object (field key (text query) l))) = query
query_in b = ""

-- A second page has no rows, any other answer has the one that is stored.
abbrev pub second_page : String
second_page = list_query print_time (pos 1) (pos 1) list_request

abbrev pub stored_row : Json Fixed
stored_row = build_correlation_properties print_time (pos 0) "tenant" correlation

abbrev respond : HttpRequest Body → Reply (HttpResponse Body)
respond req =
    if str_eq req.url "http://down/v1/graphql"
    then failure "connection refused"
    else reply (record {
      status = 200;
      body =
          if str_eq (query_in req.body) second_page
          then answer_of []
          else answer_of (stored_row ∷ []);
    })

abbrev as_json : Body → Reply (Json Fixed)
as_json (json_body json) = reply json
as_json b = failure "invalid character"

abbrev incidents_in : Body → Option (List (CorrelationResult Fixed))
incidents_in (incidents_body l) = some l
incidents_in b = none

abbrev patterns_in : Body → Option (List (FailurePattern Fixed))
patterns_in (patterns_body l) = some l
patterns_in b = none

abbrev pub Entry : Type 0
Entry = Option Body

abbrev pub outside : Outside Entry Body Fixed
outside = record {
  marshal = λ json. reply (json_body json);
  new_request = λ url. reply tt;
  send = λ req w. (respond req, w);
  trimmed = λ body. "error";
  decode = as_json;
  misfit = λ json. "cannot unmarshal";
  now = λ w. pos 9_000_000_000;
  format_time = print_time;
  parse_time = read_digits;
  correlations = record { marshal = λ l. some (incidents_body l); unmarshal = incidents_in };
  patterns = record { marshal = λ l. some (patterns_body l); unmarshal = patterns_in };
}

abbrev found_in : Entry → Reply Body
found_in none = failure "cache miss"
found_in (some body) = reply body

abbrev pub one_entry : Provider Entry Body
one_entry = record {
  get = λ key w. (found_in w, w);
  set = λ key body ttl w. (reply tt, some body);
  set_nx = λ key body ttl w. (reply true, some body);
  del = λ key w. (reply tt, none);
}

abbrev pub repository : String → WeaviateRepo Entry Body
repository endpoint = record {
  endpoint = endpoint;
  api_key = "key";
  timeout = pos 5;
  cache = one_entry;
  similar_ttl = pos 60;
  pattern_ttl = pos 60;
}
