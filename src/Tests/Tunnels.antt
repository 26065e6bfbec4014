-- ===== src/Tests/Tunnels.antt =====
-- The theorems on the supervisor of a tunnel: a launch, a step of a healthy tunnel, a stored state.
use clinx.Prelude.{
  true, false, ◌≡◌, ◌≤◌, refl, none, some, [], ◌∷◌, ◌⊎◌, ℕ, arith, ltb, ◌+◌, ◌*◌, subst,
  if◌then◌else◌, arith,
}
use clinx.Prelude.Results.{ok}
use clinx.Json.{Json, null, string, number, pos_int, bool, object, fields_of}
use clinx.Tunnel.Process.{vanished, entry, stat}
use clinx.Tunnel.Supervisor.{Stepped}
use clinx.Tunnel.Supervisor.Budget.{shows_progress, Run, begins, asks, steps, launches-le}
use clinx.Tunnel.Supervisor.Resets.{IsReset, step-launches}
use clinx.Tunnel.Operations.{Machine, no_file}
use clinx.Tunnel.Alone.{IsAlone, acquire_stored-IsAlone}
use clinx.Tests.{ext, value_of}
use clinx.Json.Access.{
  lookup, insert, get?, ◌!◌, as_str, as_bool, as_array, as_object, is_null, is_object, is_array,
  is_string, is_number, as_i64, as_u64, is_text, is_true, is_false, is_empty_array,
}
use clinx.Json.Equality.{json_eq, items_eq, fields_eq}
use clinx.ExecutionCore.Evidence.{
  same_names, keys, numeric, numeric_eq, scalar_eq, as_f64, num, truth, text, int_above,
  identity_member, identity, bundle, outcome, py_eq, py_eq_items, py_eq_fields,
}
use clinx.Tunnel.Process.{nth, process_start, in_group, group_live}
use clinx.Tunnel.Supervisor.{
  number_in, float_value, policy, is_fresh_poll, advances, is_stable, step_healthy, must_recover,
  step_failing, step_by, step, launched, launch_within, launch,
}
use clinx.Tunnel.Operations.{
  poll_stamp, poll_errors, poll, pid_gone, child_gone, acquire_stored, acquire, record_state,
  start_at, still_runs, currently_healthy, status, invoke,
}
use clinx.Prelude.Scan.{rsplit_after, words, parse_u64}
use clinx.Prelude.Trim.{is_white, trim_start, trim_end, trim_chars, trim}

abbrev healthy : Json
healthy =
    (object (
      fields_of (
        ("exited", (bool false))
        ∷ ("launched_wall", (number (pos_int 5)))
        ∷ ("now", (number (pos_int 20)))
        ∷ (
          "policy",
          (object (
              fields_of (
                ("cooldown", (number (pos_int 1)))
                ∷ ("failure_grace", (number (pos_int 1)))
                ∷ ("interval", (number (pos_int 1)))
                ∷ ("max_restarts", (number (pos_int 3)))
                ∷ ("probe_timeout", (number (pos_int 1)))
                ∷ ("stable_for", (number (pos_int 1)))
                ∷ ("stale_after", (number (pos_int 1)))
                ∷ ("startup_grace", (number (pos_int 1)))
                ∷ ("stop_timeout", (number (pos_int 1)))
                ∷ []))),
        )
        ∷ (
          "sample",
          (object (fields_of (("fresh", (bool true)) ∷ ("last_poll", (number (pos_int 12))) ∷ []))),
        )
        ∷ (
          "state",
          (object
              (fields_of (("identity", (string "i")) ∷ ("launches", (number (pos_int 3))) ∷ []))),
        )
        ∷ (
          "timing",
          (object (
              fields_of (
                ("failure_started", null)
                ∷ ("healthy_since", (number (pos_int 1)))
                ∷ ("healthy_start_poll", (number (pos_int 10)))
                ∷ []))),
        )
        ∷ [])))

abbrev stepped : Stepped
stepped =
    value_of (step ext healthy)
      (record { state = null; timing = null; status = ""; reason = ""; action = "" })

less_irreflexive : (x : ℕ) → ltb x x ≡ false
less_irreflexive x = ground arith

healthy-steps : step ext healthy ≡ ok stepped
unfolding lookup insert get? ◌!◌ as_str as_bool as_array as_object is_null is_object is_array
    is_string is_number as_i64 as_u64 is_text is_true is_false is_empty_array json_eq items_eq
    fields_eq same_names keys numeric numeric_eq scalar_eq as_f64 num truth text int_above
    identity_member identity bundle outcome py_eq py_eq_items py_eq_fields nth process_start
    in_group group_live number_in float_value policy is_fresh_poll advances is_stable step_healthy
    must_recover step_failing step_by step launched launch_within launch poll_stamp poll_errors poll
    pid_gone child_gone acquire_stored acquire record_state start_at still_runs currently_healthy
    status invoke rsplit_after words parse_u64 is_white trim_start trim_end trim_chars trim
healthy-steps = refl

abbrev begun : Json
begun = (object (fields_of (("identity", (string "i")) ∷ ("launches", (number (pos_int 3))) ∷ [])))

abbrev asked : Json
asked =
    (object (
      fields_of (
        (
          "policy",
          (object (
              fields_of (
                ("cooldown", (number (pos_int 1)))
                ∷ ("failure_grace", (number (pos_int 1)))
                ∷ ("interval", (number (pos_int 1)))
                ∷ ("max_restarts", (number (pos_int 3)))
                ∷ ("probe_timeout", (number (pos_int 1)))
                ∷ ("stable_for", (number (pos_int 1)))
                ∷ ("stale_after", (number (pos_int 1)))
                ∷ ("startup_grace", (number (pos_int 1)))
                ∷ ("stop_timeout", (number (pos_int 1)))
                ∷ []))),
        )
        ∷ ("state", stepped.state)
        ∷ [])))

abbrev launched_state : Json
launched_state = (value_of (launch ext asked) (false, null)).1

tunnel-launches : launch ext asked ≡ ok (true, launched_state)
unfolding lookup insert get? ◌!◌ as_str as_bool as_array as_object is_null is_object is_array
    is_string is_number as_i64 as_u64 is_text is_true is_false is_empty_array json_eq items_eq
    fields_eq same_names keys numeric numeric_eq scalar_eq as_f64 num truth text int_above
    identity_member identity bundle outcome py_eq py_eq_items py_eq_fields nth process_start
    in_group group_live number_in float_value policy is_fresh_poll advances is_stable step_healthy
    must_recover step_failing step_by step launched launch_within launch poll_stamp poll_errors poll
    pid_gone child_gone acquire_stored acquire record_state start_at still_runs currently_healthy
    status invoke rsplit_after words parse_u64 is_white trim_start trim_end trim_chars trim
tunnel-launches = refl

begun-launches : begun ! "launches" ≡ number (pos_int 3)
unfolding lookup insert get? ◌!◌ as_str as_bool as_array as_object is_null is_object is_array
    is_string is_number as_i64 as_u64 is_text is_true is_false is_empty_array json_eq items_eq
    fields_eq same_names keys numeric numeric_eq scalar_eq as_f64 num truth text int_above
    identity_member identity bundle outcome py_eq py_eq_items py_eq_fields nth process_start
    in_group group_live number_in float_value policy is_fresh_poll advances is_stable step_healthy
    must_recover step_failing step_by step launched launch_within launch poll_stamp poll_errors poll
    pid_gone child_gone acquire_stored acquire record_state start_at still_runs currently_healthy
    status invoke rsplit_after words parse_u64 is_white trim_start trim_end trim_chars trim
begun-launches = refl

healthy-state : healthy ! "state" ≡ begun
unfolding lookup insert get? ◌!◌ as_str as_bool as_array as_object is_null is_object is_array
    is_string is_number as_i64 as_u64 is_text is_true is_false is_empty_array json_eq items_eq
    fields_eq same_names keys numeric numeric_eq scalar_eq as_f64 num truth text int_above
    identity_member identity bundle outcome py_eq py_eq_items py_eq_fields nth process_start
    in_group group_live number_in float_value policy is_fresh_poll advances is_stable step_healthy
    must_recover step_failing step_by step launched launch_within launch poll_stamp poll_errors poll
    pid_gone child_gone acquire_stored acquire record_state start_at still_runs currently_healthy
    status invoke rsplit_after words parse_u64 is_white trim_start trim_end trim_chars trim
healthy-state = refl

healthy-progress : shows_progress ext healthy ≡ true
unfolding lookup insert get? ◌!◌ as_str as_bool as_array as_object is_null is_object is_array
    is_string is_number as_i64 as_u64 is_text is_true is_false is_empty_array json_eq items_eq
    fields_eq same_names keys numeric numeric_eq scalar_eq as_f64 num truth text int_above
    identity_member identity bundle outcome py_eq py_eq_items py_eq_fields nth process_start
    in_group group_live number_in float_value policy is_fresh_poll advances is_stable step_healthy
    must_recover step_failing step_by step launched launch_within launch poll_stamp poll_errors poll
    pid_gone child_gone acquire_stored acquire record_state start_at still_runs currently_healthy
    status invoke rsplit_after words parse_u64 is_white trim_start trim_end trim_chars trim
healthy-progress = refl

asked-state : asked ! "state" ≡ stepped.state
unfolding lookup insert get? ◌!◌ as_str as_bool as_array as_object is_null is_object is_array
    is_string is_number as_i64 as_u64 is_text is_true is_false is_empty_array json_eq items_eq
    fields_eq same_names keys numeric numeric_eq scalar_eq as_f64 num truth text int_above
    identity_member identity bundle outcome py_eq py_eq_items py_eq_fields nth process_start
    in_group group_live number_in float_value policy is_fresh_poll advances is_stable step_healthy
    must_recover step_failing step_by step launched launch_within launch poll_stamp poll_errors poll
    pid_gone child_gone acquire_stored acquire record_state start_at still_runs currently_healthy
    status invoke rsplit_after words parse_u64 is_white trim_start trim_end trim_chars trim
asked-state = refl

asked-limit : as_u64 (asked ! "policy" ! "max_restarts") ≡ some 3
unfolding lookup insert get? ◌!◌ as_str as_bool as_array as_object is_null is_object is_array
    is_string is_number as_i64 as_u64 is_text is_true is_false is_empty_array json_eq items_eq
    fields_eq same_names keys numeric numeric_eq scalar_eq as_f64 num truth text int_above
    identity_member identity bundle outcome py_eq py_eq_items py_eq_fields nth process_start
    in_group group_live number_in float_value policy is_fresh_poll advances is_stable step_healthy
    must_recover step_failing step_by step launched launch_within launch poll_stamp poll_errors poll
    pid_gone child_gone acquire_stored acquire record_state start_at still_runs currently_healthy
    status invoke rsplit_after words parse_u64 is_white trim_start trim_end trim_chars trim
asked-limit = refl

healthy-Run : Run ext 3 3 stepped.state 0 1
healthy-Run =
    let run = steps healthy stepped (begins begun-launches) healthy-state healthy-steps in
    subst (λ b. Run ext 3 3 stepped.state 0 (if b then 1 else 0)) healthy-progress run

launches-le_example : 3 + 1 ≤ 4 + 1 * 3
launches-le_example =
    launches-le ext less_irreflexive 3 3 (omega arith) launched_state 1 1
      (asks asked launched_state true healthy-Run asked-state asked-limit tunnel-launches)

step-launches_example :
    ((stepped.state ! "launches" ≡ number (pos_int 1)) × IsReset ext healthy)
    ⊎ (stepped.state ! "launches" ≡ healthy ! "state" ! "launches")
step-launches_example = step-launches ext less_irreflexive healthy stepped healthy-steps

abbrev machine : Machine
machine = record {
  external = ext;
  poll_samples = λ _. [];
  error_samples = λ _. [];
  parse_f64 = λ _. none;
  stat_of = λ _. vanished;
  listing = entry "12" (stat "12 (sh) S 1 12 ") ∷ entry "self" vanished ∷ [];
  is_gone = λ _. true;
  stored = λ _. no_file;
  writes = λ _ _. true;
}

abbrev kept : Json
kept =
    (object (
      fields_of (
        ("child_pid", (number (pos_int 7)))
        ∷ ("identity", (string "i"))
        ∷ ("launches", (number (pos_int 2)))
        ∷ ("reason", (string "CHILD_EXITED"))
        ∷ [])))

abbrev asking : Json
asking = (object (fields_of (("directory", (string "/d")) ∷ ("identity", (string "i")) ∷ [])))

kept-acquires : acquire_stored machine asking kept ≡ ok kept
unfolding lookup insert get? ◌!◌ as_str as_bool as_array as_object is_null is_object is_array
    is_string is_number as_i64 as_u64 is_text is_true is_false is_empty_array json_eq items_eq
    fields_eq same_names keys numeric numeric_eq scalar_eq as_f64 num truth text int_above
    identity_member identity bundle outcome py_eq py_eq_items py_eq_fields nth process_start
    in_group group_live number_in float_value policy is_fresh_poll advances is_stable step_healthy
    must_recover step_failing step_by step launched launch_within launch poll_stamp poll_errors poll
    pid_gone child_gone acquire_stored acquire record_state start_at still_runs currently_healthy
    status invoke rsplit_after words parse_u64 is_white trim_start trim_end trim_chars trim
kept-acquires = refl

acquire_stored-IsAlone_example : (kept ≡ kept) × IsAlone machine asking kept
acquire_stored-IsAlone_example = acquire_stored-IsAlone machine asking kept kept kept-acquires
