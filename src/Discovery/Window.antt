-- ===== src/Discovery/Window.antt =====
-- The pairing windows of kernel/src/discovery_state.rs (`Window` and the operations of
-- `Runtime::invoke` on one window). The clock, the random draws and the outcome of the caller's
-- commit are arguments; an operation gives back the window also where it fails.
pub mod Pairing
pub mod Attempts
use clinx.Prelude.{
  ℕ, suc, ◌+◌, ◌/◌, ◌%◌, String, Bool, true, false, not, ◌&&◌, ◌||◌, Option, none, some, List, [],
  ◌∷◌, ◌==◌, ltb, leb, eqb, is_some, if◌then◌else◌,
}
use clinx.Prelude.Int.{pos}
use clinx.Prelude.Results.{Result, ok, err}
use clinx.Prelude.Text.{concat}
use clinx.Json.{Json, null, number, string, array, object, pos_int, of_list, fields_of}
use clinx.Json.Access.{◌!◌, as_str, as_u64, is_null, is_true}
use clinx.External.{External}
use clinx.ExecutionCore.Evidence.{num}

-- The times are the bits of an f64.
pub record Window : Type 0 where
  pub code : Option String
  pub id : Option String
  pub expires : ℕ
  pub next_attempt : ℕ
  pub next_open : ℕ
  pub busy : Option String
  pub failures : ℕ

-- `Window::default()`
abbrev pub new_window : Window
new_window = record {
  code = none;
  id = none;
  expires = 0;
  next_attempt = 0;
  next_open = 0;
  busy = none;
  failures = 0;
}

unfoldable pub clear : Window → Window
clear s = record s { code = none; id = none }

-- A window and the answer of an operation on it.
abbrev pub Answered : Type 0 → Type 0
Answered A = Window × Result String A

-- `a == b` on `Option<&str>`.
abbrev pub same_text : Option String → Option String → Bool
same_text none none = true
same_text (some a) (some b) = a == b
same_text _ _ = false

unfoldable pub close : Window → Answered (Unit {0})
close s = (clear s, ok tt)

-- `"discovery.window.expire"`, and what the thread does that `open` has started.
unfoldable pub expire : Option String → Window → Answered (Unit {0})
expire id s = (if same_text s.id id then clear s else s, ok tt)

-- `{:04}` of a number below 10000.
abbrev digit : ℕ → String
digit n =
    if eqb n 0
    then "0"
    else if eqb n 1
    then "1"
    else if eqb n 2
    then "2"
    else if eqb n 3
    then "3"
    else if eqb n 4
    then "4"
    else if eqb n 5
    then "5"
    else if eqb n 6
    then "6"
    else if eqb n 7
    then "7"
    else if eqb n 8
    then "8"
    else "9"

unfoldable pub pin : ℕ → String
pin n =
    concat
      (digit (n / 1000 % 10) ∷ digit (n / 100 % 10) ∷ digit (n / 10 % 10) ∷ digit (n % 10) ∷ [])

-- The random source: the accepted sixteen bits for a code, a nonce; `none` where it is unavailable.
pub record Draws : Type 0 where
  pub bits : Option ℕ
  pub nonce : Option String

module _ (w : External) where
  -- `now >= self.expires`
  unfoldable pub expired : ℕ → Window → Bool
  expired now s = w.float_le s.expires now

  -- The window, cleared where it has expired.
  unfoldable pub refreshed : ℕ → Window → Window
  refreshed now s = if expired now s then clear s else s

  -- `Window::active`
  abbrev is_open : Window → Result String (Unit {0})
  is_open s = if is_some s.code then ok tt else err "PAIRING_CLOSED"

  unfoldable pub active : ℕ → Window → Answered (Unit {0})
  unfolding refreshed
  active now s = (refreshed now s, is_open (refreshed now s))

  abbrev opened : ℕ → ℕ → ℕ → String → Window → Window
  opened now lifetime bits nonce s = record {
    code = some (pin (bits % 10000));
    id = some nonce;
    expires = w.float_add now lifetime;
    next_attempt = now;
    next_open = w.float_add now lifetime;
    busy = s.busy;
    failures = 0;
  }

  abbrev drawn : ℕ → ℕ → Draws → Window → Answered String
  drawn now lifetime d s = elim d.bits [
    | none ↦ (s, err "PAIRING_RANDOM_UNAVAILABLE")
    | some bits ↦ elim d.nonce [
      | none ↦ (s, err "PAIRING_RANDOM_UNAVAILABLE")
      | some nonce ↦ (opened now lifetime bits nonce s, ok (pin (bits % 10000)))
    ]
  ]

  -- `"discovery.window.open"`; `lifetime` is what `as_f64` reads.
  unfoldable pub open_window : ℕ → Option ℕ → Draws → Window → Answered String
  open_window now lifetime d s =
      if w.float_lt now s.next_open || is_some s.busy
      then (s, err "PAIRING_RATE_LIMITED")
      else elim lifetime [
        | none ↦ (s, err "PAIRING_LIFETIME_INVALID")
        | some l ↦
            if w.is_finite l && (w.float_le (w.of_int (pos 0)) l && w.fits_duration l)
            then drawn now l d s
            else (s, err "PAIRING_LIFETIME_INVALID")
      ]

  abbrev reserved : ℕ → Option String → Window → Answered Window
  reserved now nonce s = elim nonce [
    | none ↦ (s, err "PAIRING_RANDOM_UNAVAILABLE")
    | some n ↦
        let t = record s { busy = some n; next_attempt = w.float_add now (w.of_int (pos 1)) } in
        (t, ok t)
  ]

  -- `"discovery.window.reserve"`; the answer is the window whose `busy`, `id` and `code` it shows.
  unfoldable pub reserve : ℕ → Option String → Window → Answered Window
  unfolding refreshed
  reserve now nonce s =
      let t = refreshed now s in
      if not (is_some t.code)
      then (t, err "PAIRING_CLOSED")
      else if is_some t.busy
      then (t, err "PAIRING_BUSY")
      else if w.float_lt now t.next_attempt
      then (t, err "PAIRING_RATE_LIMITED")
      else reserved now nonce t

  -- The arguments of a completion; `commit` is the outcome of the caller's commit where it is asked
  -- for.
  pub record Completion : Type 0 where
    pub reservation : Option String
    pub success : Bool
    pub max_failures : Option ℕ
    pub commit : Option (Result String (Unit {0}))

  abbrev committed : Option (Result String (Unit {0})) → Result String (Unit {0})
  committed none = ok tt
  committed (some r) = r

  abbrev failed : Option ℕ → Window → Answered (Unit {0})
  failed max_failures s =
      let t = record s { failures = suc s.failures } in
      elim max_failures [
        | none ↦ (t, err "PAIRING_POLICY_INVALID")
        | some m ↦ (if leb m t.failures then clear t else t, ok tt)
      ]

  -- `"discovery.window.complete"`
  unfoldable pub complete : ℕ → Completion → Window → Answered (Unit {0})
  unfolding refreshed
  complete now c s =
      if not (is_some s.busy) || not (same_text s.busy c.reservation)
      then (s, err "PAIRING_REPLAY")
      else let t = refreshed now (record s { busy = none }) in
        if not (is_some t.code)
        then (t, err "PAIRING_CLOSED")
        else if c.success
        then (clear t, committed c.commit)
        else failed c.max_failures t

  abbrev pub text_or_null : Option String → Json
  text_or_null none = null
  text_or_null (some s) = string s

  -- `Window::snapshot`
  unfoldable pub shown : Window → Json
  shown s = object (
      fields_of (
        ("code", text_or_null s.code)
        ∷ ("failures", number (pos_int s.failures))
        ∷ ("id", text_or_null s.id)
        ∷ []))

  unfoldable pub snapshot : ℕ → Window → Answered Json
  unfolding refreshed shown
  snapshot now s = (refreshed now s, ok (shown (refreshed now s)))
