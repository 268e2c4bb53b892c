-- ===== src/Ingestion/RateLimiter/FixedWindow.antt =====
-- What Redis promises the limiter of apps/ingestion/rate_limiter.py over time, and what the limiter
-- promises: a counter of fixed windows.
pub mod Serves
pub mod Span
use iotflow_distributed_syst.Base.{
  ℕ, ◌+◌, ◌*◌, ◌≡◌, ◌≢◌, Bool, true, false, List, [], ◌∷◌, Option, none, some, Text, text_eq,
  text_eq→eq, text_eq_refl, ltb, leb, arith, refl, ◌∙◌, if◌then◌else◌, ap, ap₂, sym, map, not, ◌==◌,
  Bool-cases, Option-cases, inl, inr,
}
use mathlib.Core.Path.{subst}
use iotflow_distributed_syst.Exec.{Outcome, ok}
use iotflow_distributed_syst.Ingestion.Config.{rate_limit_max_events, rate_limit_window_seconds}
use iotflow_distributed_syst.Ingestion.Services.{Environment, State, perform}
use iotflow_distributed_syst.Ingestion.RateLimiter.{rate_limit_lua, limit_key, is_allowed}

-- A counter as Redis holds it, with the time at which it expires, if it does.
pub record Held : Type 0 where
  pub count : ℕ
  pub deadline : Option ℕ

-- The counter that is there at the time `now`.
abbrev pub live : ℕ → Option Held → Held
live now none = record { count = 0; deadline = none }
live now (some h) = elim h.deadline [
  | none ↦ h
  | some at ↦ if ltb now at then h else record { count = 0; deadline = none }
]

abbrev pub one_more : Held → Option Held
one_more h = some (record h { count = h.count + 1 })

-- What Redis documents of INCR, EXPIRE and scripts, while it can be reached: a key is gone once its
-- time has come; INCR counts on from the counter that is there, or from 0, and keeps its time; EXPIRE
-- sets a time from now on; and no time passes in a script. `elapse` lets milliseconds pass.
pub record ExpiryLaws {W : Type 0} (env : Environment W) : Type 0 where
  pub now : W → ℕ
  pub held : Text → W → Option Held
  pub elapse : ℕ → W → W
  pub elapse_now : (n : ℕ) (w : W) → now (elapse n w) ≡ now w + n
  pub elapse_held : (n : ℕ) (k : Text) (w : W) → held k (elapse n w) ≡ held k w
  pub incr_returns :
      (k : Text) (w : W) → (env.redis_incr k w).0 ≡ (live (now w) (held k w)).count + 1
  pub incr_held :
      (k : Text) (w : W)
      → let before = live (now w) (held k w) in held k (env.redis_incr k w).1 ≡ one_more before
  pub incr_others : (j k : Text) (w : W) → j ≢ k → held j (env.redis_incr k w).1 ≡ held j w
  pub incr_now : (k : Text) (w : W) → now (env.redis_incr k w).1 ≡ now w
  pub expire_held :
      (k : Text) (seconds : ℕ) (w : W) (h : Held)
      → held k w ≡ some h
      → held k (env.redis_expire k seconds w)
        ≡ some (record h { deadline = some (now w + seconds * 1000) })
  pub expire_others :
      (j k : Text) (seconds : ℕ) (w : W) → j ≢ k → held j (env.redis_expire k seconds w) ≡ held j w
  pub expire_now : (k : Text) (seconds : ℕ) (w : W) → now (env.redis_expire k seconds w) ≡ now w
  pub script_runs :
      (script : W → ℕ × W) (w : W) → env.run_script script w ≡ (ok (script w).0, (script w).1)

-- A window of the abstract limiter: when it ends, and how many events have come in it.
pub record Window : Type 0 where
  pub ends : ℕ
  pub count : ℕ

abbrev pub Windows : Type 0
Windows = Text → Option Window

abbrev pub window_length : ℕ
window_length = rate_limit_window_seconds * 1000

abbrev pub opened : ℕ → Window
opened now = record { ends = now + window_length; count = 1 }

-- The window that an event at the time `now` falls into: it counts there, or it opens a new one.
abbrev pub window_at : ℕ → Option Window → Window
window_at now none = opened now
window_at now (some w) = if ltb now w.ends then record w { count = w.count + 1 } else opened now

-- What the limiter promises for an event at the time `now`.
abbrev pub ask : ℕ → Text → Windows → Bool × Windows
ask now k windows =
    let window = window_at now (windows k) in
    (leb window.count rate_limit_max_events, λ j. if text_eq j k then some window else windows j)

abbrev pub held_of : Option Window → Option Held
held_of none = none
held_of (some w) = some (record { count = w.count; deadline = some w.ends })
