-- ===== src/Discovery/Runtime.antt =====
-- `Runtime::invoke` of kernel/src/discovery_state.rs on pairing windows: the windows by their
-- number, and the operations by their name, with their arguments read from a value. A number of 64
-- bits that would overflow is out of reach.
use clinx.Prelude.{ℕ, suc, String, Option, none, some, List, [], ◌∷◌, ◌==◌, eqb, if◌then◌else◌}
use clinx.Prelude.Results.{Result, ok, err}
use clinx.Json.{Json, null, number, string, array, pos_int, of_list}
use clinx.Json.Access.{◌!◌, as_str, as_u64, is_null, is_true}
use clinx.External.{External}
use clinx.ExecutionCore.Evidence.{as_f64, num}
use clinx.Discovery.Window.{
  Window, new_window, Answered, Draws, Completion, close, expire, active, open_window, reserve,
  complete, snapshot, text_or_null,
}

pub record Runtime : Type 0 where
  pub next : ℕ
  pub windows : List (ℕ × Window)

abbrev pub new_runtime : Runtime
new_runtime = record { next = 0; windows = [] }

unfoldable pub find_window : ℕ → List (ℕ × Window) → Option Window
find_window k [] = none
find_window k ((j, s) ∷ m) = if eqb j k then some s else find_window k m

unfoldable pub put_window : ℕ → Window → List (ℕ × Window) → List (ℕ × Window)
put_window k s [] = (k, s) ∷ []
put_window k s ((j, t) ∷ m) =
    let rest = put_window k s m in if eqb j k then (k, s) ∷ m else (j, t) ∷ rest

unfoldable pub remove_window : ℕ → List (ℕ × Window) → List (ℕ × Window)
remove_window k [] = []
remove_window k ((j, t) ∷ m) =
    let rest = remove_window k m in if eqb j k then rest else (j, t) ∷ rest

abbrev shown_as : {A : Type 0} → (A → Json) → Answered A → Answered Json
shown_as f (s, err e) = (s, err e)
shown_as f (s, ok a) = (s, ok (f a))

-- What the outside world answers in one call: the clock, the random source, the commit.
pub record Outside : Type 0 where
  pub elapsed : ℕ
  pub draws : Draws
  pub commit : Result String (Unit {0})

module _ (w : External) where
  unfoldable pub now_of : Json → ℕ → Result String ℕ
  now_of a elapsed =
      if is_null (a ! "now")
      then ok elapsed
      else elim (num w (a ! "now")) [ none ↦ err "PAIRING_CLOCK_INVALID" | some now ↦ ok now ]

  abbrev completion : Json → Outside → Completion w
  completion a o = record {
    reservation = as_str (a ! "reservation");
    success = is_true (a ! "success");
    max_failures = as_u64 (a ! "max_failures");
    commit = if is_true (a ! "commit") then some o.commit else none;
  }

  -- `json!([state.busy, state.id, state.code])`
  abbrev reservation_shown : Window → Json
  reservation_shown s =
      array (of_list (text_or_null w s.busy ∷ text_or_null w s.id ∷ text_or_null w s.code ∷ []))

  unfoldable pub on_window : String → Json → Outside → ℕ → Window → Answered Json
  on_window operation a o now s =
      if operation == "discovery.window.close"
      then shown_as (λ _. null) (close s)
      else if operation == "discovery.window.expire"
      then shown_as (λ _. null) (expire (as_str (a ! "id")) s)
      else if operation == "discovery.window.snapshot"
      then snapshot w now s
      else if operation == "discovery.window.active"
      then shown_as (λ _. null) (active w now s)
      else if operation == "discovery.window.open"
      then shown_as string (open_window w now (as_f64 w (a ! "lifetime")) o.draws s)
      else if operation == "discovery.window.reserve"
      then shown_as reservation_shown (reserve w now o.draws.nonce s)
      else if operation == "discovery.window.complete"
      then shown_as (λ _. null) (complete w now (completion a o) s)
      else (s, err "DISCOVERY_OPERATION_UNKNOWN")

  abbrev stored : ℕ → Runtime → Answered Json → Runtime × Result String Json
  stored k r (s, answer) = (record r { windows = put_window k s r.windows }, answer)

  abbrev at_time :
      String
      → Json
      → Outside
      → ℕ
      → Window
      → Runtime
      → Result String ℕ
      → Runtime × Result String Json
  at_time operation a o k s r (err e) = (r, err e)
  at_time operation a o k s r (ok now) = stored k r (on_window operation a o now s)

  unfoldable pub invoke : String → Json → Outside → Runtime → Runtime × Result String Json
  unfolding now_of on_window find_window
  invoke operation a o r =
      if operation == "discovery.window.create"
      then (
        record { next = suc r.next; windows = put_window (suc r.next) new_window r.windows },
        ok (number (pos_int (suc r.next))),
      )
      else elim (as_u64 (a ! "window")) [
        | none ↦ (r, err "PAIRING_CLOSED")
        | some k ↦
            if operation == "discovery.window.delete"
            then (record r { windows = remove_window k r.windows }, ok null)
            else elim (find_window k r.windows) [
              | none ↦ (r, err "PAIRING_CLOSED")
              | some s ↦ at_time operation a o k s r (now_of a o.elapsed)
            ]
      ]
