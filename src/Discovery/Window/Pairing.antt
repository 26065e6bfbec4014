-- ===== src/Discovery/Window/Pairing.antt =====
-- Who may use a pairing window of kernel/src/discovery_state.rs, and when.
use clinx.Prelude.{
  ℕ, String, ◌≡◌, ◌≢◌, refl, ap, sym, ◌∙◌, inl, inr, false, Option, none, some, arith, ◌==◌, eq_iff,
  eq_refl, Bool-cases,
}
use clinx.Prelude.Results.{ok, err}
use clinx.External.{External}
use clinx.Discovery.Window.{
  Window, Completion, Draws, clear, same_text, refreshed, reserve, complete, open_window,
}

-- The window `s` is held under `token`: at no time does another reservation or an opening get
-- through, and a completion under another token leaves it as it is.
pub record IsHeld (w : External) (s : Window) (token : String) : Type 0 where
  pub others_wait :
      (now : ℕ) (nonce : Option String) (u : Window) → (reserve w now nonce s).1 ≢ ok u
  pub still_held : (now : ℕ) (nonce : Option String) → (reserve w now nonce s).0.busy ≡ some token
  pub not_opened :
      (now : ℕ) (lifetime : Option ℕ) (d : Draws)
      → open_window w now lifetime d s ≡ (s, err "PAIRING_RATE_LIMITED")
  pub not_replayed :
      (now : ℕ) (c : Completion w)
      → c.reservation ≢ some token
      → complete w now c s ≡ (s, err "PAIRING_REPLAY")

same_text-eq :
    (a b : String) (o : Option String) → a ≡ b → o ≢ some b → same_text (some a) o ≡ false
same_text-eq a b none e h = refl
same_text-eq a b (some c) e h = elim (Bool-cases (a == c)) [
  | inl same ↦ absurd (h (ap some (sym ((eq_iff a c).0 same) ∙ e)))
  | inr other ↦ other
]

module _ (w : External) where
  busy-IsHeld : (s : Window) (token : String) → s.busy ≡ some token → IsHeld w s token
  unfolding reserve open_window complete clear refreshed
  busy-IsHeld s token h = record {
    others_wait = λ now nonce u g. ground arith;
    still_held = λ now nonce. ground arith;
    not_opened = λ now lifetime d. ground arith;
    not_replayed = λ now c other. ground (arith, same_text-eq token token c.reservation refl other);
  }

  -- A reservation that succeeds holds the window under the token it drew: no other reservation or
  -- opening gets through at any time, and a completion under another token changes nothing.
  pub reserve-IsHeld :
      (now : ℕ) (nonce : Option String) (s t u : Window)
      → reserve w now nonce s ≡ (t, ok u)
      → (token : String) × (nonce ≡ some token) × (u ≡ t) × IsHeld w t token
  unfolding reserve clear refreshed
  reserve-IsHeld now none s t u h = absurd (ground arith)
  reserve-IsHeld now (some token) s t u h =
      (token, refl, ground arith, busy-IsHeld t token (ground arith))

  -- A completion under the token of the reservation ends it, whatever the time, the limit and the
  -- outcome.
  pub complete_frees :
      (now : ℕ) (c : Completion w) (s : Window) (token : String)
      → s.busy ≡ some token
      → c.reservation ≡ some token
      → (complete w now c s).0.busy ≡ none
  unfolding complete refreshed clear
  complete_frees now c s token held own = ground (arith, eq_refl token)
