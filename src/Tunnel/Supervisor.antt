-- ===== src/Tunnel/Supervisor.antt =====
-- kernel/src/tunnel_supervisor.rs: `policy`, `poll`, `step`, `launch` and the durable state. The
-- crate regex, the parser of floats, the files and the signals are parameters.
pub mod Launches
pub mod Resets
pub mod Budget
use Prim.Native.String
use clinx.Prelude.{
  ℕ, suc, ◌+◌, String, Bool, true, false, not, ◌&&◌, ◌||◌, Option, none, some, List, [], ◌∷◌, ◌==◌,
  leb, ltb, eqb, is_some, is_some_and, is_none_or, filter_some, unwrap_or, contains, if◌then◌else◌,
}
use clinx.Prelude.Int.{ℤ, pos, u64_max}
use clinx.Prelude.Results.{Result, ok, err, ◌>>=◌, ◌>>◌, ensure}
use clinx.Json.{
  Json, null, bool, number, string, object, pos_int, float, Fields, end, field, entries, fields_of,
}
use clinx.Json.Access.{
  lookup, insert, get?, ◌!◌, as_str, as_u64, as_object, is_null, is_text, is_true,
}
use clinx.Json.Write.{set_member}
use clinx.Json.Equality.{json_eq}
use clinx.External.{External}
use clinx.ExecutionCore.Evidence.{as_f64, num}
use clinx.Tunnel.Process.{Stat, Entry, process_start, group_live}

abbrev pub Tunnel : Type 0 → Type 0
Tunnel A = Result String A

abbrev pub policy_names : List String
policy_names =
    "stale_after" ∷ "startup_grace" ∷ "interval" ∷ "probe_timeout" ∷ "stop_timeout" ∷ "cooldown"
    ∷ "failure_grace" ∷ "max_restarts" ∷ "stable_for" ∷ []

-- `checked_add(1)` of a `u64`.
abbrev pub next_u64 : String → ℕ → Tunnel ℕ
next_u64 e n = if ltb n u64_max then ok (suc n) else err e

abbrev pub option_err : {A : Type 0} → String → Option A → Tunnel A
option_err e none = err e
option_err e (some a) = ok a

-- The answer of `step`.
pub record Stepped : Type 0 where
  pub state : Json
  pub timing : Json
  pub status : String
  pub reason : String
  pub action : String

module _ (w : External) where
  unfoldable pub number_in : Json → Tunnel ℕ
  number_in v = option_err "INVALID_POLICY" (num w v)

  -- `json!(f)` of an `f64`.
  unfoldable pub float_value : ℕ → Json
  float_value f = if w.is_finite f then number (float f) else null

  abbrev positive : Json → Bool
  positive v =
      not (is_none_or (as_f64 w v) (λ n. not (w.is_finite n) || w.float_le n (w.of_int (pos 0))))

  abbrev positives : Json → List String → Tunnel (Unit {0})
  positives p [] = ok tt
  positives p (name ∷ names) =
      ensure (positive (p ! name)) (String.◌++◌ "INVALID_POLICY_" name) >> positives p names

  unfoldable pub policy : Json → Tunnel (Unit {0})
  policy p =
      positives p policy_names
      >> ensure (is_some (as_u64 (p ! "max_restarts"))) "INVALID_RESTART_LIMIT"

  -- `a - b >= c`
  abbrev elapsed : ℕ → ℕ → ℕ → Bool
  elapsed now since limit = w.float_le limit (w.float_sub now since)

  -- `sample["fresh"] == true && last_poll >= launched_wall`
  unfoldable pub is_fresh_poll : Json → Tunnel Bool
  unfolding number_in
  is_fresh_poll a =
      if is_true (a ! "sample" ! "fresh")
      then (do
        last ← number_in (a ! "sample" ! "last_poll")
        launched ← number_in (a ! "launched_wall")
        ok (w.float_le launched last))
      else ok false

  abbrev set_if_null : String → Json → Json → Tunnel Json
  set_if_null k v t = if is_null (t ! k) then set_member k v t else ok t

  unfoldable pub advances : Json → Json → Tunnel Bool
  unfolding number_in
  advances a timing = do
    last ← number_in (a ! "sample" ! "last_poll")
    start ← number_in (timing ! "healthy_start_poll")
    ok (w.float_lt start last)

  -- Whether the tunnel has been healthy long enough, under polls that advance.
  unfoldable pub is_stable : Json → ℕ → Json → Tunnel Bool
  unfolding number_in advances
  is_stable a now timing = do
    since ← number_in (timing ! "healthy_since")
    stable_for ← number_in (a ! "policy" ! "stable_for")
    if elapsed now since stable_for then advances a timing else ok false

  abbrev recovered : Json → ℕ → Json → Tunnel Json
  recovered timing now state = elim (as_f64 w (timing ! "failure_started")) [
    | none ↦ ok state
    | some since ↦ set_member "recovery_seconds" (float_value (w.float_sub now since)) state
  ]

  abbrev set_back : Bool → Json → Tunnel Json
  set_back stable state =
      if stable then set_member "launches" (number (pos_int 1)) state else ok state

  unfoldable pub step_healthy : Json → ℕ → Tunnel Stepped
  unfolding is_stable float_value
  step_healthy a now = do
    since ← set_if_null "healthy_since" (float_value now) (a ! "timing")
    timing ← set_if_null "healthy_start_poll" (a ! "sample" ! "last_poll") since
    stable ← is_stable a now timing
    reset ← set_back stable (a ! "state")
    state ← recovered timing now reset
    cleared ← set_member "failure_started" null timing
    ok (record {
      state = state;
      timing = cleared;
      status = "HEALTHY";
      reason = "FRESH_CONTROL_POLL";
      action = "wait";
    })

  -- Whether a failing tunnel is to be launched anew.
  unfoldable pub must_recover : Json → Bool → ℕ → Json → Tunnel Bool
  unfolding number_in
  must_recover a exited now timing = if exited then ok true else do
    launched ← number_in (a ! "launched_mono")
    startup ← number_in (a ! "policy" ! "startup_grace")
    if elapsed now launched startup
        then (do
          failed ← number_in (timing ! "failure_started")
          grace ← number_in (a ! "policy" ! "failure_grace")
          ok (elapsed now failed grace))
        else ok false

  unfoldable pub step_failing : Json → Bool → ℕ → Tunnel Stepped
  unfolding must_recover float_value
  step_failing a exited now = do
    unhealthy ← set_member "healthy_since" null (a ! "timing")
    unstarted ← set_member "healthy_start_poll" null unhealthy
    timing ← set_if_null "failure_started" (float_value now) unstarted
    recover ← must_recover a exited now timing
    ok (record {
      state = a ! "state";
      timing = timing;
      status = if recover then "BACKOFF" else "DEGRADED";
      reason = if exited then "CHILD_EXITED" else "POLL_STALE_OR_UNAVAILABLE";
      action = if recover then "recover" else "wait";
    })

  unfoldable pub step_by : Json → ℕ → Bool → Tunnel Stepped
  unfolding step_healthy step_failing
  step_by a now fresh =
      if fresh && not (is_true (a ! "exited"))
      then step_healthy a now
      else step_failing a (is_true (a ! "exited")) now

  unfoldable pub step : Json → Tunnel Stepped
  unfolding step_by policy number_in is_fresh_poll
  step a = do
    _ ← policy (a ! "policy")
    now ← number_in (a ! "now")
    fresh ← is_fresh_poll a
    step_by a now fresh

-- The state with one launch more.
unfoldable pub launched : Json → ℕ → Tunnel Json
launched state n = do
  counted ← set_member "launches" (number (pos_int (suc n))) state
  sequence ←
      next_u64 "STATE_IDENTITY_OR_BUDGET_INVALID"
        (unwrap_or (as_u64 (counted ! "launch_sequence")) 0)
  set_member "launch_sequence" (number (pos_int sequence)) counted

-- What a launch comes to, under a limit.
unfoldable pub launch_within : Json → ℕ → ℕ → Tunnel (Bool × Json)
unfolding launched
launch_within state n limit =
    if ltb n limit then (launched state n >>= λ next. ok (true, next)) else ok (false, state)

module _ (w : External) where
  -- "tunnel.launch": whether another launch is allowed, and the state.
  unfoldable pub launch : Json → Tunnel (Bool × Json)
  unfolding launch_within policy
  launch a = do
    _ ← policy w (a ! "policy")
    n ← option_err "STATE_IDENTITY_OR_BUDGET_INVALID" (as_u64 (a ! "state" ! "launches"))
    restarts ← option_err "PANIC" (as_u64 (a ! "policy" ! "max_restarts"))
    limit ← next_u64 "INVALID_RESTART_LIMIT" restarts
    launch_within (a ! "state") n limit
