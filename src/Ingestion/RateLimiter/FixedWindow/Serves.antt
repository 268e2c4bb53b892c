-- ===== src/Ingestion/RateLimiter/FixedWindow/Serves.antt =====
-- The limiter of apps/ingestion/rate_limiter.py over time implements a counter of fixed windows.
use iotflow_distributed_syst.Base.{
  ℕ, ◌+◌, ◌*◌, ◌≡◌, ◌≢◌, Bool, true, false, List, [], ◌∷◌, none, some, Text, text_eq, text_eq→eq,
  text_eq_refl, ltb, leb, arith, refl, ◌∙◌, if◌then◌else◌, ap, ap₂, sym, map, not, ◌==◌, Bool-cases,
  Option-cases, inl, inr,
}
use mathlib.Core.Path.{subst}
use iotflow_distributed_syst.Exec.{Outcome, ok}
use iotflow_distributed_syst.Ingestion.Config.{rate_limit_max_events, rate_limit_window_seconds}
use iotflow_distributed_syst.Ingestion.Services.{Environment, State, perform}
use iotflow_distributed_syst.Ingestion.RateLimiter.{rate_limit_lua, limit_key, is_allowed}
use iotflow_distributed_syst.Ingestion.RateLimiter.FixedWindow.{
  Held, live, one_more, ExpiryLaws, Window, Windows, opened, window_at, ask, held_of,
}

module _ {W : Type 0} (env : Environment W) (laws : ExpiryLaws env) where
  -- Redis holds these windows, and no other counter.
  pub record Shows (windows : Windows) (w : W) : Type 0 where
    pub counters : (j : Text) → laws.held j w ≡ held_of (windows j)
    -- No window was opened without an event.
    pub counted : (j : Text) (v : Window) → windows j ≡ some v → ltb 0 v.count ≡ true

  module _ (k : Text) (w : W) where
    abbrev lua : ℕ × W
    lua = rate_limit_lua env k rate_limit_max_events rate_limit_window_seconds w

    abbrev incremented : W
    incremented = (env.redis_incr k w).1

    -- The script does not touch the other counters, and takes no time.
    lua-others :
        ((j : Text) → j ≢ k → laws.held j lua.1 ≡ laws.held j w) × (laws.now lua.1 ≡ laws.now w)
    unfolding rate_limit_lua
    lua-others = (
      λ j other. ground (
        arith,
        laws.incr_others j k w other,
        laws.expire_others j k rate_limit_window_seconds incremented other,
      ),
      ground (arith, laws.incr_now k w, laws.expire_now k rate_limit_window_seconds incremented),
    )

    -- Where no counter is there, it opens a window.
    lua-opens :
        live (laws.now w) (laws.held k w) ≡ record { count = 0; deadline = none }
        → (lua.0 ≡ 1) × (laws.held k lua.1 ≡ held_of (some (opened (laws.now w))))
    unfolding rate_limit_lua
    lua-opens fresh =
        let one = laws.incr_returns k w ∙ ap (λ h. Held.count h + 1) fresh in
        let counted = laws.incr_held k w ∙ ap one_more fresh in
        let expires =
          laws.expire_held k rate_limit_window_seconds incremented _ counted
          ∙ ap
              (λ t.
                some (record { count = 1; deadline = some (t + rate_limit_window_seconds * 1000) }))
              (laws.incr_now k w) in
        rw one (refl, expires)

    -- Where one is there, it counts on.
    lua-counts_on :
        (count ends : ℕ)
        → ltb 0 count ≡ true
        → live (laws.now w) (laws.held k w) ≡ record { count = count; deadline = some ends }
        → (lua.0 ≡ (if leb (count + 1) rate_limit_max_events then 1 else 0))
          × (laws.held k lua.1 ≡ held_of (some (record { ends = ends; count = count + 1 })))
    unfolding rate_limit_lua
    lua-counts_on count ends positive there =
        let more = laws.incr_returns k w ∙ ap (λ h. Held.count h + 1) there in
        let counted = laws.incr_held k w ∙ ap one_more there in
        ground (arith, more, counted, positive)

  -- The time and the other counters are as the abstract limiter has them.
  lua-Shows :
      (k : Text) (windows : Windows) (w : W) (new : Window)
      → Shows windows w
      → laws.held k (lua k w).1 ≡ held_of (some new)
      → ltb 0 new.count ≡ true
      → Shows (λ j. if text_eq j k then some new else windows j) (lua k w).1
  lua-Shows k windows w new shows here positive = record {
    counters = λ j. elim (Bool-cases (text_eq j k)) [
      | inl same ↦ rw (same, text_eq→eq j k same) here
      | inr other ↦ rw other (
          (lua-others k w).0 j (λ e. absurd (ground (arith, other, e, text_eq_refl k)))
          ∙ shows.counters j)
    ];
    counted = λ j v found. ground (arith, found, positive, shows.counted j v);
  }

  -- The script answers as the abstract limiter does, and counts as it does.
  abbrev IsAsked : Text → Windows → W → Type 0
  IsAsked k windows w =
      let promised = ask (laws.now w) k windows in
      ((lua k w).0 ≡ (if promised.0 then 1 else 0)) × Shows promised.1 (lua k w).1

  lua-IsAsked-at :
      (k : Text) (windows : Windows) (w : W) (new : Window)
      → Shows windows w
      → window_at (laws.now w) (windows k) ≡ new
      → ltb 0 new.count ≡ true
      → ((lua k w).0 ≡ (if leb new.count rate_limit_max_events then 1 else 0))
        × (laws.held k (lua k w).1 ≡ held_of (some new))
      → IsAsked k windows w
  lua-IsAsked-at k windows w new shows same positive out =
      subst
        (λ v.
          ((lua k w).0 ≡ (if leb (Window.count v) rate_limit_max_events then 1 else 0))
          × Shows (λ j. if text_eq j k then some v else windows j) (lua k w).1)
        (sym same) (out.0, lua-Shows k windows w new shows out.1 positive)

  lua-IsAsked-some :
      (k : Text) (windows : Windows) (w : W) (v : Window)
      → Shows windows w
      → windows k ≡ some v
      → IsAsked k windows w
  lua-IsAsked-some k windows w v shows h =
      let there = ap (live (laws.now w)) (shows.counters k ∙ ap held_of h) in
      elim (Bool-cases (ltb (laws.now w) v.ends)) [
        | inl on ↦
            lua-IsAsked-at k windows w (record v { count = v.count + 1 }) shows (rw (h, on) refl)
              (ground arith)
              (lua-counts_on k w v.count v.ends (shows.counted k v h) (there ∙ rw on refl))
        | inr over ↦
            lua-IsAsked-at k windows w (opened (laws.now w)) shows (rw (h, over) refl) refl
              (lua-opens k w (there ∙ rw over refl))
      ]

  lua-IsAsked : (k : Text) (windows : Windows) (w : W) → Shows windows w → IsAsked k windows w
  lua-IsAsked k windows w shows = elim (Option-cases (windows k)) [
    | inl h ↦
        lua-IsAsked-at k windows w (opened (laws.now w)) shows (rw h refl) refl
          (lua-opens k w (ap (live (laws.now w)) (shows.counters k ∙ ap held_of h)))
    | inr (v, h) ↦ lua-IsAsked-some k windows w v shows h
  ]

  flag : (b : Bool) → Outcome.ok (not ((if b then 1 else 0) == 0)) ≡ ok b
  flag true = refl
  flag false = refl

  is_allowed-asks :
      (device_id : Text) (windows : Windows) (s : State W)
      → Shows windows s.world
      → let promised = ask (laws.now s.world) (limit_key env device_id) windows in
        let out = is_allowed env device_id s in
        (out.0 ≡ ok promised.0)
        × Shows promised.1 out.1.world
        × (laws.now out.1.world ≡ laws.now s.world)
  unfolding is_allowed perform
  is_allowed-asks device_id windows s shows =
      let k = limit_key env device_id in
      let (answer, shown) = lua-IsAsked k windows s.world shows in
      rw
        (
          laws.script_runs (rate_limit_lua env k rate_limit_max_events rate_limit_window_seconds)
              s.world,
          answer,
        )
        (flag (ask (laws.now s.world) k windows).0, shown, (lua-others k s.world).1)

  -- A request: the milliseconds since the one before, and the device.
  abbrev pub Request : Type 0
  Request = ℕ × Text

  -- Some time passes.
  abbrev pub elapsed : ℕ → State W → State W
  elapsed n s = record s { world = laws.elapse n s.world }

  elapsed-Shows :
      (n : ℕ) (windows : Windows) (s : State W)
      → Shows windows s.world
      → Shows windows (elapsed n s).world
  elapsed-Shows n windows s shows = record {
    counters = λ j. laws.elapse_held n j s.world ∙ shows.counters j;
    counted = shows.counted;
  }

  -- The answers to the requests, and the state after them.
  unfoldable pub serve : List Request → State W → List (Outcome Bool) × State W
  serve [] s = ([], s)
  serve ((gap, device_id) ∷ rs) s =
      let out = is_allowed env device_id (elapsed gap s) in
      let rest = serve rs out.1 in (out.0 ∷ rest.0, rest.1)

  -- The answers that the abstract limiter gives from the time `now` on.
  unfoldable pub promise : ℕ → List Request → Windows → List Bool × Windows
  promise now [] windows = ([], windows)
  promise now ((gap, device_id) ∷ rs) windows =
      let out = ask (now + gap) (limit_key env device_id) windows in
      let rest = promise (now + gap) rs out.1 in (out.0 ∷ rest.0, rest.1)

  is_allowed-asks-at :
      (device_id : Text) (windows : Windows) (s : State W) (t : ℕ)
      → laws.now s.world ≡ t
      → Shows windows s.world
      → let promised = ask t (limit_key env device_id) windows in
        let out = is_allowed env device_id s in
        (out.0 ≡ ok promised.0) × Shows promised.1 out.1.world × (laws.now out.1.world ≡ t)
  is_allowed-asks-at device_id windows s t h shows =
      rw⁻¹ h (is_allowed-asks device_id windows s shows)

  serve-at :
      (rs : List Request) (windows : Windows) (s : State W) (t : ℕ)
      → laws.now s.world ≡ t
      → Shows windows s.world
      → let promised = promise t rs windows in
        ((serve rs s).0 ≡ map ok promised.0) × Shows promised.1 (serve rs s).1.world
  unfolding serve promise
  serve-at [] windows s t h shows = (refl, shows)
  serve-at ((gap, device_id) ∷ rs) windows s t h shows =
      let (answer, shown, same) =
        is_allowed-asks-at device_id windows (elapsed gap s) (t + gap)
          (laws.elapse_now gap s.world ∙ ap (λ n. n + gap) h) (elapsed-Shows gap windows s shows) in
      let (answers, last) =
        serve-at rs _ (is_allowed env device_id (elapsed gap s)).1 (t + gap) same shown in
      (ap₂ (λ x xs. x ∷ xs) answer answers, last)

  -- The limiter implements fixed windows of a minute, each from the first event that it counts on:
  -- while Redis can be reached, requests for any devices at any times are answered as the windows
  -- promise, True for the first 100 events of a window and False for the others, and Redis holds the
  -- windows' counts and ends.
  pub serve_implements :
      (rs : List Request) (windows : Windows) (s : State W)
      → Shows windows s.world
      → let promised = promise (laws.now s.world) rs windows in
        ((serve rs s).0 ≡ map ok promised.0) × Shows promised.1 (serve rs s).1.world
  serve_implements rs windows s shows = serve-at rs windows s (laws.now s.world) refl shows
