-- ===== src/Tunnel/Operations.antt =====
-- The other operations of kernel/src/tunnel_supervisor.rs: the probe, the durable state, its
-- report, and `invoke`. The matches of a regular expression, the parser of floats, the files, the
-- signal to a process and `/proc` are what the operations are handed in a `Machine`.
use clinx.Prelude.{
  ℕ, String, Bool, false, not, ◌&&◌, ◌||◌, Option, none, some, List, [], ◌∷◌, ◌==◌, leb, ltb,
  is_some, is_some_and, filter_some, if◌then◌else◌,
}
use clinx.Prelude.Int.{pos}
use clinx.Prelude.Results.{ok, err, ◌>>=◌, ◌>>◌, ensure}
use clinx.Json.{Json, null, bool, number, string, object, pos_int, Fields, end, field, fields_of}
use clinx.Json.Access.{lookup, insert, ◌!◌, as_str, as_u64, as_object, is_null, is_text}
use clinx.Json.Write.{set_member}
use clinx.Json.Equality.{json_eq}
use clinx.External.{External}
use clinx.ExecutionCore.Evidence.{as_f64}
use clinx.Tunnel.Process.{Stat, Entry, process_start, group_live}
use clinx.Tunnel.Supervisor.{
  Tunnel, option_err, Stepped, number_in, float_value, policy, step, launch,
}

-- The file `state.json`.
pub data Stored : Type 0 where
  no_file : Stored
  unreadable : Stored
  malformed : Stored
  content : Json → Stored

-- What the operations find outside: the groups of each match of the two patterns of `poll`, the
-- value of a text as `f64`, `/proc`, whether a process is gone (`ESRCH`), the stored state by its
-- directory, and whether a state could be written durably.
pub record Machine : Type 0 where
  pub external : External
  pub poll_samples : String → List String
  pub error_samples : String → List (String × String)
  pub parse_f64 : String → Option ℕ
  pub stat_of : ℕ → Stat
  pub listing : List Entry
  pub is_gone : ℕ → Bool
  pub stored : String → Stored
  pub writes : String → Json → Bool

abbrev pub i32_max : ℕ
i32_max = 2147483647

module _ (m : Machine) where
  abbrev zero_f : ℕ
  zero_f = m.external.of_int (pos 0)

  -- The one sample of a poll that is there and positive.
  unfoldable pub poll_stamp : List String → Option ℕ
  poll_stamp (text ∷ []) =
      filter_some (m.parse_f64 text) (λ n. m.external.is_finite n && m.external.float_lt zero_f n)
  poll_stamp _ = none

  abbrev counted_error : String → Bool
  counted_error kind = kind == "timeout" || kind == "other"

  abbrev error_count : String → Option ℕ
  error_count text =
      filter_some (m.parse_f64 text) (λ n. m.external.is_finite n && m.external.float_le zero_f n)

  abbrev add_error : Fields → String → Option ℕ → Fields
  add_error errors kind none = errors
  add_error errors kind (some n) =
      if counted_error kind then insert kind (float_value m.external n) errors else errors

  unfoldable pub poll_errors : Fields → List (String × String) → Fields
  poll_errors errors [] = errors
  poll_errors errors ((kind, text) ∷ more) =
      poll_errors (add_error errors kind (error_count text)) more

  abbrev optional_float : Option ℕ → Json
  optional_float none = null
  optional_float (some f) = float_value m.external f

  -- `0 <= age && age <= max_age`
  abbrev recent : ℕ → ℕ → Bool
  recent age limit = m.external.float_le zero_f age && m.external.float_le age limit

  abbrev poll_answer : Option ℕ → Option ℕ → ℕ → Fields → Json
  poll_answer stamp age max_age errors = object (
      fields_of (
        ("fresh", bool (is_some_and age (λ n. recent n max_age)))
        ∷ ("last_poll", optional_float stamp)
        ∷ ("poll_age", optional_float age)
        ∷ ("poll_errors", object errors)
        ∷ ("probe_error", if is_some stamp then null else string "INVALID_POLL_SAMPLE")
        ∷ []))

  abbrev poll_age : ℕ → Option ℕ → Option ℕ
  poll_age now none = none
  poll_age now (some v) = some (m.external.float_sub now v)

  unfoldable pub poll : Json → Tunnel Json
  unfolding poll_stamp poll_errors
  poll a = do
    metrics ← option_err "INVALID_METRICS" (as_str (a ! "metrics"))
    now ← number_in m.external (a ! "now")
    max_age ← number_in m.external (a ! "max_age")
    ok (
        poll_answer (poll_stamp (m.poll_samples metrics))
          (poll_age now (poll_stamp (m.poll_samples metrics))) max_age
          (poll_errors end (m.error_samples metrics)))

  -- `value != 0`
  abbrev pub is_zero : Json → Bool
  is_zero v = json_eq m.external v (number (pos_int 0))

  -- The number of a stored child, within the numbers of processes.
  abbrev pub child_pid : Json → Tunnel ℕ
  child_pid v =
      option_err "PRIOR_CHILD_IDENTITY_INVALID"
        (filter_some (as_u64 v) (λ n. ltb 0 n && leb n i32_max))

  unfoldable pub pid_gone : Json → Tunnel (Unit {0})
  pid_gone v = do
    id ← child_pid v
    _ ← ensure (m.is_gone id) "PRIOR_CHILD_MAY_BE_LIVE_NO_ADOPTION_OR_DUPLICATION"
    live ← group_live id m.listing
    ensure (not live) "PRIOR_GROUP_MAY_BE_LIVE_NO_DUPLICATE_CONSUMER"

  -- Nothing of the stored child is left.
  unfoldable pub child_gone : Json → Tunnel (Unit {0})
  unfolding pid_gone
  child_gone v = if is_null v || is_zero v then ok tt else pid_gone v

  unfoldable pub acquire_stored : Json → Json → Tunnel Json
  unfolding child_gone
  acquire_stored a state = do
    _ ←
        ensure
          (json_eq m.external (state ! "identity") (a ! "identity")
            && is_some (as_u64 (state ! "launches")))
          "STATE_IDENTITY_OR_BUDGET_INVALID"
    _ ←
        ensure (not (is_text (state ! "reason") "LAUNCH_INTENT"))
          "SPAWN_OUTCOME_UNKNOWN_NO_DUPLICATE_CONSUMER"
    _ ← child_gone (state ! "child_pid")
    ok state

  abbrev acquire_from : Json → Stored → Tunnel Json
  acquire_from a no_file =
      ok (object (fields_of (("identity", a ! "identity") ∷ ("launches", number (pos_int 0)) ∷ [])))
  acquire_from a unreadable = err "STATE_UNAVAILABLE"
  acquire_from a malformed = err "INVALID_STATE"
  acquire_from a (content state) = acquire_stored a state

  unfoldable pub acquire : Json → Tunnel Json
  unfolding acquire_stored
  acquire a = do
    directory ← option_err "PRIVATE_STATE_DIRECTORY_REQUIRED" (as_str (a ! "directory"))
    acquire_from a (m.stored directory)

  abbrev recorded_names : List String
  recorded_names =
      "status" ∷ "reason" ∷ "updated_at" ∷ "supervisor_pid" ∷ "supervisor_start" ∷ "policy" ∷ []

  abbrev copy_members : List String → Json → Fields → Fields
  copy_members [] a state = state
  copy_members (k ∷ ks) a state = copy_members ks a (insert k (a ! k) state)

  abbrev insert_all : Fields → Fields → Fields
  insert_all end state = state
  insert_all (field k v fs) state = insert_all fs (insert k v state)

  -- `state.get(k) != Some(&a[k])`
  abbrev differs : String → Json → Fields → Bool
  differs k a state = not (is_some_and (lookup k state) (λ v. json_eq m.external v (a ! k)))

  abbrev next_state : Json → Fields → Fields → Json
  next_state a state more = object (insert_all more (copy_members recorded_names a state))

  unfoldable pub record_state : Json → Tunnel Json
  record_state a = do
    state ← option_err "INVALID_STATE" (as_object (a ! "state"))
    more ← option_err "INVALID_STATE" (as_object (a ! "fields"))
    directory ← option_err "PRIVATE_STATE_DIRECTORY_REQUIRED" (as_str (a ! "directory"))
    _ ← ensure (m.writes directory (next_state a state more)) "STATE_WRITE_FAILED"
    ok (
        object (
          fields_of (
            ("changed", bool (differs "status" a state || differs "reason" a state))
            ∷ ("state", next_state a state more)
            ∷ [])))

  unfoldable pub start_at : Json → Option String
  start_at pid = elim (as_u64 pid) [ none ↦ none | some n ↦ process_start (m.stat_of n) ]

  -- The process of that number is the one that started then.
  unfoldable pub still_runs : Json → Json → Bool
  unfolding start_at
  still_runs start pid = is_some_and (as_str start) (λ s. is_some_and (start_at pid) (λ t. t == s))

  abbrev recent_member : Json → ℕ → ℕ → Bool
  recent_member v now limit =
      is_some_and (as_f64 m.external v) (λ t. recent (m.external.float_sub now t) limit)

  unfoldable pub currently_healthy : Json → ℕ → Tunnel Bool
  unfolding still_runs
  currently_healthy s now = do
    interval ← option_err "PANIC" (as_f64 m.external (s ! "policy" ! "interval"))
    timeout ← option_err "PANIC" (as_f64 m.external (s ! "policy" ! "probe_timeout"))
    stale_after ← option_err "PANIC" (as_f64 m.external (s ! "policy" ! "stale_after"))
    ok (
        is_text (s ! "status") "HEALTHY"
        && (still_runs (s ! "supervisor_start") (s ! "supervisor_pid")
            && (still_runs (s ! "child_start") (s ! "child_pid")
                && (recent_member (s ! "updated_at") now (
                      m.external.float_add (m.external.float_add interval timeout)
                        (m.external.of_int (pos 2)))
                    && recent_member (s ! "last_poll") now stale_after))))

  abbrev status_from : Stored → Tunnel Json
  status_from (content s) = ok s
  status_from malformed = err "INVALID_STATE"
  status_from other = err "STATE_UNAVAILABLE"

  unfoldable pub status : Json → Tunnel Json
  unfolding currently_healthy
  status a = do
    directory ← option_err "INVALID_STATE" (as_str (a ! "directory"))
    s ← status_from (m.stored directory)
    _ ← policy m.external (s ! "policy")
    now ← number_in m.external (a ! "now")
    valid ← currently_healthy s now
    shown ← set_member "currently_healthy" (bool valid) s
    set_member "dispatch_verified" (bool false) shown

  abbrev step_json : Stepped → Json
  step_json r = object (
      fields_of (
        ("action", string r.action)
        ∷ ("reason", string r.reason)
        ∷ ("state", r.state)
        ∷ ("status", string r.status)
        ∷ ("timing", r.timing)
        ∷ []))

  abbrev launch_json : Bool × Json → Json
  launch_json (allowed, state) =
      object (fields_of (("allowed", bool allowed) ∷ ("state", state) ∷ []))

  abbrev optional_text : Option String → Json
  optional_text none = null
  optional_text (some s) = string s

  unfoldable pub invoke : String → Json → Tunnel Json
  unfolding poll acquire record_state status start_at
  invoke op a =
      if op == "tunnel.policy"
      then policy m.external (a ! "policy") >> ok null
      else if op == "tunnel.poll"
      then poll a
      else if op == "tunnel.process_start"
      then ok (optional_text (start_at (a ! "pid")))
      else if op == "tunnel.group_live"
      then (do
        group ← option_err "PROCESS_STATE_INVALID" (as_u64 (a ! "pgid"))
        live ← group_live group m.listing
        ok (bool live))
      else if op == "tunnel.acquire"
      then acquire a
      else if op == "tunnel.record"
      then record_state a
      else if op == "tunnel.step"
      then (do r ← step m.external a; ok (step_json r))
      else if op == "tunnel.launch"
      then (do r ← launch m.external a; ok (launch_json r))
      else if op == "tunnel.status"
      then status a
      else err "TUNNEL_OPERATION_UNKNOWN"
