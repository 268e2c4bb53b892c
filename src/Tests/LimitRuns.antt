-- ===== src/Tests/LimitRuns.antt =====
-- The theorems on the rate limiter over time, on a Redis whose counters expire.
use iotflow_distributed_syst.Base.{
  ℕ, ◌+◌, ◌*◌, ◌<◌, ◌≤◌, ◌≡◌, ◌≢◌, refl, List, [], ◌∷◌, Option, none, some, Text, str, text_eq,
  text_eq_refl, text_eq→eq, arith, map, replicate, if◌then◌else◌, true,
}
use iotflow_distributed_syst.Exec.{ok}
use iotflow_distributed_syst.Ingestion.Config.{rate_limit_max_events}
use iotflow_distributed_syst.Ingestion.Services.{Environment, State}
use iotflow_distributed_syst.Ingestion.RateLimiter.{limit_key}
use iotflow_distributed_syst.Ingestion.RateLimiter.FixedWindow.{
  Held, live, one_more, ExpiryLaws, Windows,
}
use iotflow_distributed_syst.Ingestion.RateLimiter.FixedWindow.Serves.{
  Shows, serve, promise, serve_implements,
}
use iotflow_distributed_syst.Ingestion.RateLimiter.FixedWindow.Span.{granted, granted_at_most}
use iotflow_distributed_syst.Tests.Samples.{runtime, ingestion_start}

-- A world is the time and the counters.
record Redis : Type 0 where
  now : ℕ
  held : Text → Option Held

abbrev set : Text → Option Held → Redis → Redis
set k h w = record w { held = λ j. if text_eq j k then h else w.held j }

abbrev with_deadline : ℕ → Option Held → Option Held
with_deadline at none = none
with_deadline at (some h) = some (record h { deadline = some at })

abbrev redis_services : Environment Redis
redis_services = record {
  py = runtime;
  redis_incr =
      λ k w. ((live w.now (w.held k)).count + 1, set k (one_more (live w.now (w.held k))) w);
  redis_expire = λ k seconds w. set k (with_deadline (w.now + seconds * 1000) (w.held k)) w;
  run_script = λ script w. (ok (script w).0, (script w).1);
  send_and_wait = λ message w. (ok tt, w);
  send = λ message w. (ok tt, w);
  flush = λ w. (ok tt, w);
  uuid4 = λ w. (str "id", w);
  producer_start = λ options w. (ok tt, w);
  producer_stop = λ w. (ok tt, w);
  redis_ping = λ w. (ok tt, w);
  redis_close = λ w. (ok tt, w);
  start_http_server = λ port w. (ok tt, w);
}

set-others : (j k : Text) (h : Option Held) (w : Redis) → j ≢ k → (set k h w).held j ≡ w.held j
set-others j k h w other = ground (arith, text_eq→eq j k, other)

set-same : (k : Text) (h : Option Held) (w : Redis) → (set k h w).held k ≡ h
set-same k h w = rw (text_eq_refl k) refl

abbrev redis_laws : ExpiryLaws redis_services
redis_laws = record {
  now = λ w. w.now;
  held = λ k w. w.held k;
  elapse = λ n w. record w { now = w.now + n };
  elapse_now = λ n w. refl;
  elapse_held = λ n k w. refl;
  incr_returns = λ k w. refl;
  incr_held = λ k w. set-same k (one_more (live w.now (w.held k))) w;
  incr_others = λ j k w other. set-others j k (one_more (live w.now (w.held k))) w other;
  incr_now = λ k w. refl;
  expire_held = λ k seconds w h there. rw (text_eq_refl k, there) refl;
  expire_others = λ j k seconds w other.
      set-others j k (with_deadline (w.now + seconds * 1000) (w.held k)) w other;
  expire_now = λ k seconds w. refl;
  script_runs = λ script w. refl;
}

abbrev no_counters : State Redis
no_counters = record {
  world = record { now = 5; held = λ k. none };
  calls = [];
  started = true;
  metrics = ingestion_start.metrics;
}

abbrev no_windows : Windows
no_windows k = none

no_counters-Shows : Shows redis_services redis_laws no_windows no_counters.world
no_counters-Shows = record { counters = λ j. refl; counted = λ j v found. absurd (cc) }

-- Two events of one device, one of another, and the first device again after its window.
abbrev requests : List (ℕ × Text)
requests =
    (1, str "sensor-1") ∷ (2, str "sensor-2") ∷ (3, str "sensor-1") ∷ (59996, str "sensor-1") ∷ []

serve_implements_example :
    let promised = promise redis_services redis_laws 5 requests no_windows in
    let served = serve redis_services redis_laws requests no_counters in
    (served.0 ≡ map ok promised.0) × Shows redis_services redis_laws promised.1 served.1.world
serve_implements_example =
    serve_implements redis_services redis_laws requests no_windows no_counters no_counters-Shows

granted_at_most_example :
    let k = limit_key redis_services (str "sensor-1") in
    let answers =
      (serve redis_services redis_laws (replicate 150 (3, str "sensor-1")) no_counters).0 in
    let n = granted redis_services redis_laws k (replicate 150 (3, str "sensor-1")) answers in
    (n < 2 * rate_limit_max_events) × (no_windows k ≡ none → n ≤ rate_limit_max_events)
granted_at_most_example =
    granted_at_most redis_services redis_laws (limit_key redis_services (str "sensor-1"))
      (replicate 150 (3, str "sensor-1")) no_windows no_counters no_counters-Shows (omega arith)
