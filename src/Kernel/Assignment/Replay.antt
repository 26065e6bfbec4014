-- ===== src/Kernel/Assignment/Replay.antt =====
-- `replay_assignment` of kernel/src/lib.rs: a stream of events of one assignment, folded into its
-- last state.
use Prim.Native.String.{len}
use clinx.Prelude.{
  ℕ, suc, ◌+◌, String, Bool, not, ◌&&◌, Option, none, some, List, [], ◌∷◌, ◌++◌, ◌==◌, eqb, leb,
  length, all, contains, is_some, is_none_or,
}
use clinx.Prelude.Results.{ok, err, ◌>>=◌, ensure}
use clinx.Prelude.Text.{sort_texts, dedup}
use clinx.Json.{
  Json, null, number, string, array, object, pos_int, Fields, end, field, names, of_list, fields_of,
}
use clinx.Json.Access.{lookup, as_str, as_array, as_object}
use clinx.External.{External}
use clinx.Kernel.{Checked, max_safe_integer}
use clinx.Kernel.Timestamp.{valid_timestamp}
use clinx.Kernel.Required.{path_value}
use clinx.Kernel.Ownership.{text_lt}
use clinx.Kernel.Assignment.{
  RuntimeEvent, event_family, max_events, decode_event, event_lifecycle, previous_allowed,
  payload_hash,
}
use clinx.Kernel.Assignment.State.Clean.{validate_assignment_state}

-- What the loop carries: the state, the members that nothing covers, the types seen.
pub record Folded : Type 0 where
  pub state : Option Json
  pub unknown : List String
  pub event_types : List String

abbrev pub nothing_folded : Folded
nothing_folded = record { state = none; unknown = []; event_types = [] }

unfoldable pub decode_events : List Json → Checked (List RuntimeEvent)
decode_events [] = ok []
decode_events (v ∷ vs) = do e ← decode_event v; es ← decode_events vs; ok (e ∷ es)

unfoldable pub in_range : RuntimeEvent → Bool
in_range e =
    leb e.sequence max_safe_integer
    && (leb e.schema_version max_safe_integer
        && is_none_or e.global_position (λ n. leb n max_safe_integer))

unfoldable pub lifecycle_before : Option Json → Option String
lifecycle_before none = none
lifecycle_before (some state) = elim (path_value state "assignment.lifecycle") [
  | none ↦ none
  | some v ↦ as_str v
]

-- `object(value, …)?`
abbrev pub object_of : Json → Checked Fields
object_of v = elim (as_object v) [ none ↦ err "INVALID_INPUT" | some fs ↦ ok fs ]

module _ (w : External) where
  -- The checks of an event's envelope; `seen` events stand before it, the first with `stream`.
  unfoldable pub envelope : String → ℕ → RuntimeEvent → Checked (Unit {0})
  unfolding in_range
  envelope stream seen e = do
    _ ← ensure (in_range e) "INTEGER_OUT_OF_RANGE"
    _ ←
        ensure (e.event_family == event_family && eqb e.schema_version 1)
          "EVENT_FAMILY_SCHEMA_UNSUPPORTED"
    _ ← ensure (e.stream_type == "assignment" && e.stream_id == stream) "EVENT_STREAM_MIXED"
    _ ← ensure (eqb e.sequence (seen + 1)) "EVENT_SEQUENCE_GAP"
    _ ← ensure (is_some (event_lifecycle e.event_type)) "EVENT_TYPE_INVALID"
    _ ← ensure (valid_timestamp e.occurred_at) "EVENT_TIMESTAMP_INVALID"
    _ ← ensure (valid_timestamp e.recorded_at) "EVENT_TIMESTAMP_INVALID"
    _ ← ensure (not (text_lt e.recorded_at e.occurred_at)) "EVENT_RECORDED_BEFORE_OCCURRED"
    ensure (eqb (len e.payload_hash) 64 && payload_hash w e.payload == e.payload_hash)
        "EVENT_PAYLOAD_HASH_MISMATCH"

  -- One turn of the loop.
  unfoldable pub fold_event : String → ℕ → Folded → RuntimeEvent → Checked Folded
  unfolding lifecycle_before
  fold_event stream seen f e = do
    _ ← envelope stream seen e
    payload ← object_of e.payload
    _ ←
        ensure (previous_allowed e.event_type (lifecycle_before f.state))
          "ASSIGNMENT_TRANSITION_INVALID"
    next ← validate_assignment_state w e payload f.state
    ok (record {
      state = some next.0;
      unknown = f.unknown ++ next.1;
      event_types = f.event_types ++ e.event_type ∷ [];
    })

  unfoldable pub fold_events : String → ℕ → Folded → List RuntimeEvent → Checked Folded
  fold_events stream seen f [] = ok f
  fold_events stream seen f (e ∷ es) =
      fold_event stream seen f e >>= λ g. fold_events stream (suc seen) g es

  abbrev texts : List String → List Json
  texts [] = []
  texts (s ∷ ss) = string s ∷ texts ss

  abbrev pub stream_answer : String → ℕ → Folded → Json → String → Json
  stream_answer stream count f state lifecycle = object (
      fields_of (
        ("event_family", string event_family)
        ∷ ("event_types", array (of_list (texts f.event_types)))
        ∷ ("not_covered_fields", array (of_list (texts (dedup (sort_texts f.unknown)))))
        ∷ ("state", state)
        ∷ ("states", object (field stream (string lifecycle) end))
        ∷ ("stream_id", string stream)
        ∷ ("stream_type", string "assignment")
        ∷ ("stream_version", number (pos_int count))
        ∷ []))

  -- The answer from the folded events; its two `unwrap`s.
  unfoldable pub answer : String → ℕ → Folded → Checked Json
  unfolding lifecycle_before
  answer stream count f = elim f.state [
    | none ↦ err "PANIC"
    | some state ↦ elim (lifecycle_before (some state)) [
      | none ↦ err "PANIC"
      | some lifecycle ↦ ok (stream_answer stream count f state lifecycle)
    ]
  ]

  unfoldable pub replay_stream : List RuntimeEvent → Checked Json
  unfolding answer
  replay_stream [] = err "PANIC"
  replay_stream (first ∷ es) =
      fold_events first.stream_id 0 nothing_folded (first ∷ es)
      >>= answer first.stream_id (length (first ∷ es))

  abbrev pub empty_answer : Json
  empty_answer = object (
      fields_of (
        ("event_family", string event_family)
        ∷ ("event_types", array (of_list []))
        ∷ ("not_covered_fields", array (of_list []))
        ∷ ("state", null)
        ∷ ("states", object end)
        ∷ ("stream_version", number (pos_int 0))
        ∷ []))

  abbrev raw_events : Fields → Checked (List Json)
  raw_events root = elim (lookup "events" root) [
    | none ↦ err "INVALID_INPUT"
    | some v ↦ elim (as_array v) [ none ↦ err "INVALID_INPUT" | some vs ↦ ok vs ]
  ]

  abbrev replay_raw : List Json → Checked Json
  replay_raw [] = ok empty_answer
  replay_raw (v ∷ vs) = do
    _ ← ensure (leb (length (v ∷ vs)) max_events) "INPUT_LIMIT_EXCEEDED"
    events ← decode_events (v ∷ vs)
    replay_stream events

  unfoldable pub replay_assignment : Json → Checked Json
  unfolding replay_stream
  replay_assignment payload = do
    root ← object_of payload
    _ ← ensure (all (contains ("events" ∷ [])) (names root)) "INVALID_INPUT"
    events ← raw_events root
    replay_raw events
