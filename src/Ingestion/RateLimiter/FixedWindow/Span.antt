-- ===== src/Ingestion/RateLimiter/FixedWindow/Span.antt =====
-- How many events of a device the limiter of apps/ingestion/rate_limiter.py lets through in a time
-- that is shorter than a window, wherever the windows begin.
use iotflow_distributed_syst.Base.{
  ℕ, ◌+◌, ◌-◌, ◌*◌, ◌<◌, ◌≤◌, ◌≡◌, Bool, true, false, List, [], ◌∷◌, Option, none, some, Text,
  text_eq, text_eq→eq, text_eq_refl, ltb, leb, ltb→lt, arith, refl, ap, ◌∙◌, if◌then◌else◌,
  Bool-cases, inl, inr, map,
}
use iotflow_distributed_syst.Exec.{Outcome, ok}
use iotflow_distributed_syst.Ingestion.Config.{rate_limit_max_events}
use iotflow_distributed_syst.Ingestion.Services.{Environment, State}
use iotflow_distributed_syst.Ingestion.RateLimiter.{limit_key}
use iotflow_distributed_syst.Ingestion.RateLimiter.FixedWindow.{
  ExpiryLaws, Window, Windows, window_length, opened, window_at, ask,
}
use iotflow_distributed_syst.Ingestion.RateLimiter.FixedWindow.Serves.{
  Shows, Request, serve, promise, serve_implements,
}

-- How long the requests take, from before the first to the last.
abbrev pub span : List (ℕ × Text) → ℕ
span [] = 0
span ((gap, device_id) ∷ rs) = gap + span rs

abbrev granted_one : Bool → Outcome Bool → ℕ
granted_one true (ok true) = 1
granted_one _ _ = 0

module _ {W : Type 0} (env : Environment W) (laws : ExpiryLaws env) (k : Text) where
  -- How many requests that are counted under the key were answered True.
  unfoldable pub granted : List (Request env laws) → List (Outcome Bool) → ℕ
  granted [] answers = 0
  granted (r ∷ rs) [] = 0
  granted ((gap, device_id) ∷ rs) (answer ∷ answers) =
      granted_one (text_eq (limit_key env device_id) k) answer + granted rs answers

  abbrev left : Option Window → ℕ
  left none = 0
  left (some v) = rate_limit_max_events - v.count

  asked-same :
      (t : ℕ) (j : Text) (windows : Windows)
      → text_eq j k ≡ true
      → ((ask t j windows).1 k ≡ some (window_at t (windows k)))
        × (window_at t (windows j) ≡ window_at t (windows k))
  asked-same t j windows same = rw (text_eq→eq j k same, text_eq_refl k) (refl, refl)

  asked-other :
      (t : ℕ) (j : Text) (windows : Windows)
      → text_eq j k ≡ false
      → (ask t j windows).1 k ≡ windows k
  asked-other t j windows other = ground (arith, other, text_eq→eq k j, text_eq_refl k)

  -- How many of these requests the abstract limiter grants.
  abbrev promised : ℕ → List (Request env laws) → Windows → ℕ
  promised now rs windows = granted rs (map ok (promise env laws now rs windows).0)

  promised-end : (now : ℕ) (windows : Windows) → promised now [] windows ≡ 0
  unfolding granted promise
  promised-end now windows = refl

  module _ (gap : ℕ) (device_id : Text) (rs : List (Request env laws)) (now : ℕ)
      (windows : Windows) where
    abbrev later : Windows
    later = (ask (now + gap) (limit_key env device_id) windows).1

    -- A request that counts in the window `v`.
    promised-same :
        (v : Window)
        → text_eq (limit_key env device_id) k ≡ true
        → window_at (now + gap) (windows k) ≡ v
        → (promised now ((gap, device_id) ∷ rs) windows
            ≡ (if leb v.count rate_limit_max_events then 1 else 0) + promised (now + gap) rs later)
          × (later k ≡ some v)
    unfolding granted promise
    promised-same v same at =
        let (found, mine) = asked-same (now + gap) (limit_key env device_id) windows same in
        (
          rw (same, mine, at) (one_granted (leb v.count rate_limit_max_events) _),
          found ∙ ap some at,
        )
      where
        one_granted : (b : Bool) (n : ℕ) → granted_one true (ok b) + n ≡ (if b then 1 else 0) + n
        one_granted true n = refl
        one_granted false n = refl

    promised-other :
        text_eq (limit_key env device_id) k ≡ false
        → (promised now ((gap, device_id) ∷ rs) windows ≡ promised (now + gap) rs later)
          × (later k ≡ windows k)
    unfolding granted promise
    promised-other other =
        (rw other (omega arith), asked-other (now + gap) (limit_key env device_id) windows other)

  -- As long as the window of the key lasts, it gives out what is left of it.
  promised-window :
      (rs : List (Request env laws)) (now : ℕ) (windows : Windows) (v : Window)
      → windows k ≡ some v
      → now + span rs < v.ends
      → promised now rs windows ≤ rate_limit_max_events - v.count
  promised-window [] now windows v h lasts = omega (arith, promised-end now windows)
  promised-window ((gap, device_id) ∷ rs) now windows v h lasts =
      elim (Bool-cases (text_eq (limit_key env device_id) k)) [
        | inl same ↦
            let on : window_at (now + gap) (windows k) ≡ record v { count = v.count + 1 } =
              rw h (ground (arith, lasts)) in
            let (one, found) = promised-same gap device_id rs now windows _ same on in
            ground (
              arith,
              one,
              promised-window rs (now + gap) (later gap device_id rs now windows)
                  (record v { count = v.count + 1 }) found (omega (arith, lasts)),
            )
        | inr other ↦
            let (none_here, found) = promised-other gap device_id rs now windows other in
            omega (
              arith,
              none_here,
              promised-window rs (now + gap) (later gap device_id rs now windows) v (found ∙ h)
                  (omega (arith, lasts)),
            )
      ]

  -- A new window gives out the limit, and outlasts what is shorter than a window.
  promised-opened :
      (gap : ℕ) (device_id : Text) (rs : List (Request env laws)) (now : ℕ) (windows : Windows)
      → text_eq (limit_key env device_id) k ≡ true
      → window_at (now + gap) (windows k) ≡ opened (now + gap)
      → span rs < window_length
      → promised now ((gap, device_id) ∷ rs) windows ≤ rate_limit_max_events
  promised-opened gap device_id rs now windows same at short =
      let (one, found) = promised-same gap device_id rs now windows _ same at in
      omega (
        arith,
        one,
        promised-window rs (now + gap) (later gap device_id rs now windows) (opened (now + gap))
            found (omega (arith, short)),
      )

  -- A request counted under the key, where the others get what is left and the limit at most.
  promised-counted :
      (gap : ℕ) (device_id : Text) (rs : List (Request env laws)) (now : ℕ) (windows : Windows)
      (o : Option Window)
      → windows k ≡ o
      → text_eq (limit_key env device_id) k ≡ true
      → span rs < window_length
      → (let next_windows = later gap device_id rs now windows in
          promised (now + gap) rs next_windows ≤ left (next_windows k) + rate_limit_max_events)
      → promised now ((gap, device_id) ∷ rs) windows ≤ left (windows k) + rate_limit_max_events
  promised-counted gap device_id rs now windows none h same short rest =
      omega (arith, promised-opened gap device_id rs now windows same (rw h refl) short)
  promised-counted gap device_id rs now windows (some v) h same short rest =
      elim (Bool-cases (ltb (now + gap) v.ends)) [
        | inl on ↦
            let counts : window_at (now + gap) (windows k) ≡ record v { count = v.count + 1 } =
              rw (h, on) refl in
            let (one, found) = promised-same gap device_id rs now windows _ same counts in
            ground (arith, one, ap left found, ap left h, rest)
        | inr over ↦
            omega
              (arith, promised-opened gap device_id rs now windows same (rw (h, over) refl) short)
      ]

  promised-short :
      (rs : List (Request env laws)) (now : ℕ) (windows : Windows)
      → span rs < window_length
      → promised now rs windows ≤ left (windows k) + rate_limit_max_events
  promised-short [] now windows short = omega (arith, promised-end now windows)
  promised-short ((gap, device_id) ∷ rs) now windows short =
      elim (Bool-cases (text_eq (limit_key env device_id) k)) [
        | inl same ↦
            promised-counted gap device_id rs now windows (windows k) refl same
              (omega (arith, short))
              (promised-short rs (now + gap) (later gap device_id rs now windows)
                (omega (arith, short)))
        | inr other ↦
            let (none_here, found) = promised-other gap device_id rs now windows other in
            omega (
              arith,
              none_here,
              ap left found,
              promised-short rs (now + gap) (later gap device_id rs now windows)
                  (omega (arith, short)),
            )
      ]

  -- Of the requests that are counted under one key, as those of a device are, fewer than 200 are
  -- answered True in a time shorter than a window, and at most 100 where no counter of the key has
  -- begun before: while Redis can be reached, from whatever windows it holds.
  pub granted_at_most :
      (rs : List (Request env laws)) (windows : Windows) (s : State W)
      → Shows env laws windows s.world
      → span rs < window_length
      → (granted rs (serve env laws rs s).0 < 2 * rate_limit_max_events)
        × (windows k ≡ none → granted rs (serve env laws rs s).0 ≤ rate_limit_max_events)
  granted_at_most rs windows s shows short =
      let bound = promised-short rs (laws.now s.world) windows short in
      rw (serve_implements env laws rs windows s shows).0
        (left-most (windows k) refl bound, λ h. omega (arith, bound, ap left h))
    where
      left-most :
          (o : Option Window)
          → windows k ≡ o
          → {n : ℕ} → n ≤ left (windows k) + rate_limit_max_events
          → n < 2 * rate_limit_max_events
      left-most none h below = omega (arith, below, ap left h)
      left-most (some v) h below =
          omega (arith, below, ap left h, ltb→lt 0 v.count (shows.counted k v h))
