-- ===== src/Tests/Mock.antt =====
-- The client of mirador-core on a network that leads to the mock.
use mirador_rca.Prelude.{
  ℕ, ◌≤◌, ◌-◌, ◌≡◌, refl, ap, ◌∙◌, true, false, Option, none, some, String, map, str_eq,
  if◌then◌else◌, arith,
}
use mirador_rca.Prelude.Int.{pos, negsuc, ◌-ℤ◌, ◌*ℤ◌, div_ℤ}
use mirador_rca.Prelude.Text.{◌<>◌, codes, format_int, trim_slashes}
use mirador_rca.Prelude.Outcome.{Reply, reply, failure}
use mirador_rca.Double.Fixed.{Fixed, fixed_double}
use mirador_rca.Http.{HttpRequest, HttpResponse}
use mirador_rca.Json.{Json}
use mirador_rca.Model.{Time}
use mirador_rca.Cache.Resp.{atoi}
use mirador_rca.Cache.Resp.Decimal.{atoi-itoa}
use mirador_rca.Core.{
  fetch_metric_series, fetch_log_entries, fetch_trace_spans, fetch_service_graph, span_from,
}
use mirador_rca.Core.Http.{HttpCore, resolve_path, trim_left_slashes}
use mirador_rca.MockCore.{
  MockBody, json, mock_core, mock_series, mock_entries, mock_spans, mock_edges,
}
use mirador_rca.MockCore.Client.{IsRead, IsWhole}
use mirador_rca.MockCore.Reaches.{Signal, path_of, metrics, logs, traces, graph, Reaches, url_of}
use mirador_rca.MockCore.Agreement.{mock_client, agreement_lem}
use mirador_rca.Runtime.{in_order, in_order-IsRuntime}
use mirador_rca.Double.Fixed.{Fixed-IsDouble}
use mirador_rca.Model.{CorrelationResult}
use mirador_rca.Extractors.Traces.{default_threshold}
use mirador_rca.Prelude.Outcome.{ok}
use mirador_rca.Engine.Pipeline.{Pipeline, determine_service, investigate}
use mirador_rca.Engine.Pipeline.Advice.{ask}
use mirador_rca.Engine.Pipeline.Result.{IsResult}
use mirador_rca.Engine.Pipeline.Investigate.{stored}
use mirador_rca.Entry.{core_client}
use mirador_rca.MockCore.Investigation.{investigate-mock}
use mirador_rca.Tests.Data
use mirador_rca.Tests.Data.{request}
use mirador_rca.Weaviate.Tokens.{codes-format_int}

abbrev print_time : Time → String
print_time (pos n) = format_int (pos n)
print_time (negsuc n) = ""

abbrev read_time : String → Option Time
read_time s = atoi (codes s)

read_time-print_time : (n : ℕ) → n ≤ 1_000_000_000_000 → IsRead print_time read_time (pos n)
read_time-print_time n h = ap atoi (codes-format_int n) ∙ atoi-itoa n (omega arith)

-- A thousand seconds after the zero time.
abbrev clock : Unit {0} → Time
clock w = pos 1_000_000_000_000

abbrev mock_at : String → HttpResponse (MockBody Fixed)
mock_at path =
    let response = mock_core print_time (clock tt) "POST" path in
    record { status = response.status; body = response.body }

abbrev deliver : HttpRequest (MockBody Fixed) → HttpResponse (MockBody Fixed)
deliver req =
    if str_eq req.url "http://mock/api/v1/rca/metrics"
    then mock_at "/api/v1/rca/metrics"
    else if str_eq req.url "http://mock/api/v1/rca/logs"
    then mock_at "/api/v1/rca/logs"
    else if str_eq req.url "http://mock/api/v1/rca/traces"
    then mock_at "/api/v1/rca/traces"
    else mock_at "/api/v1/rca/service-graph"

abbrev body_json : MockBody Fixed → Reply (Json Fixed)
body_json (json j) = reply j
body_json b = failure "invalid character"

abbrev pub network : HttpCore (Unit {0}) (MockBody Fixed) Fixed
network = record {
  marshal = λ payload. reply (json payload);
  new_request = λ url. reply tt;
  send = λ req w. (reply (deliver req), w);
  status_text = λ status. "status";
  decode = body_json;
  misfit = λ j. "cannot unmarshal";
  join_path = λ base path. some (base <> path);
  format_time = print_time;
  parse_time = read_time;
  edges = record { marshal = λ l. none; unmarshal = λ b. none };
}

recent : (k : ℕ) → k ≤ 300_000_000_000 → IsRead print_time read_time (clock tt -ℤ pos k)
unfolding ◌-ℤ◌
recent k h =
    let e : clock tt -ℤ pos k ≡ pos (1_000_000_000_000 - k) = ground arith in
    rw e (read_time-print_time (1_000_000_000_000 - k) (omega arith))

whole : (n : ℕ) → n ≤ 100 → IsWhole Fixed (pos n)
unfolding ◌*ℤ◌ div_ℤ
whole n h = ground arith

sent :
    (s : Signal) (bytes : MockBody Fixed) (w : Unit {0})
    → network.send
        (record {
          url = url_of network "http://mock" print_time clock s;
          authorization = none;
          body = bytes;
        })
        w
      ≡ (reply (mock_at (path_of s)), w)
unfolding resolve_path trim_left_slashes
sent metrics bytes w = refl
sent logs bytes w = refl
sent traces bytes w = refl
sent graph bytes w = refl

addressed : (s : Signal) → str_eq (url_of network "http://mock" print_time clock s) "" ≡ false
unfolding resolve_path trim_left_slashes
addressed metrics = refl
addressed logs = refl
addressed traces = refl
addressed graph = refl

reaches : Reaches network (trim_slashes "http://mock/") print_time clock
unfolding trim_slashes
reaches = record {
  configured = refl;
  marshalled = λ payload. (json payload, refl);
  addressed = addressed;
  requested = λ s. refl;
  encode = λ b. b;
  sent = sent;
  decoded = λ j. refl;
  recent = λ w k h. recent k h;
  whole = whole;
}

agreement_lem_example :
    let c = mock_client network "http://mock/" (pos 0) print_time clock in
    (fetch_metric_series c "tenant" "checkout" (pos 0) (pos 9) tt
      ≡ (reply (mock_series (clock tt)), tt))
    × (fetch_log_entries c "tenant" "checkout" (pos 0) (pos 9) tt
        ≡ (reply (mock_entries (clock tt)), tt))
    × (fetch_trace_spans c "tenant" "checkout" (pos 0) (pos 9) tt
        ≡ (reply (map (span_from c "checkout") (mock_spans (clock tt))), tt))
    × (fetch_service_graph c "tenant" (pos 0) (pos 9) tt ≡ (reply mock_edges, tt))
agreement_lem_example =
    agreement_lem network "http://mock/" (pos 0) print_time clock reaches "tenant" "checkout"
      (pos 0) (pos 9) tt

abbrev mocked : Pipeline (Unit {0}) Fixed
mocked = record {
  core_client = some (core_client (mock_client network "http://mock/" (pos 0) print_time clock));
  weaviate = none;
  rules_engine = none;
  causality_engine = true;
  traces_threshold = default_threshold;
}

investigate-mock_example :
    (result : CorrelationResult Fixed) × IsResult request
      (determine_service request)
      mock_edges
      result
    × (investigate in_order Data.clock mocked request tt
        ≡ (ok result, stored mocked "tenant" result (ask mocked request tt).1))
investigate-mock_example =
    investigate-mock in_order-IsRuntime Fixed-IsDouble network "http://mock/" (pos 0) print_time
      clock reaches Data.clock mocked request refl tt
