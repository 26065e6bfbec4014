-- ===== src/Discovery/Window/Attempts.antt =====
-- How often the code of a pairing window (kernel/src/discovery_state.rs) is handed out for a try.
use clinx.Prelude.{
  ℕ, suc, ◌+◌, ◌≤◌, ◌<◌, String, ◌≡◌, refl, Bool, true, false, Option, none, some, List, [], ◌∷◌,
  arith, All, is_some, if◌then◌else◌,
}
use clinx.Prelude.Results.{Result, ok, err}
use clinx.External.{External}
use clinx.Discovery.Window.{
  Window, new_window, Answered, Draws, Completion, clear, close, expire, refreshed, active,
  open_window, reserve, complete, snapshot,
}

-- An operation with its arguments.
pub data Call (w : External) : Type 0 where
  closes : Call w
  expires : Option String → Call w
  snapshots : ℕ → Call w
  actives : ℕ → Call w
  opens : ℕ → Option ℕ → Draws → Call w
  reserves : ℕ → Option String → Call w
  completes : ℕ → Completion w → Call w

-- The window, and the reservations since it was last opened.
pub record Watched : Type 0 where
  pub window : Window
  pub tries : ℕ

abbrev pub unused : Watched
unused = record { window = new_window; tries = 0 }

abbrev succeeded : {A : Type 0} → Result String A → Bool
succeeded (ok a) = true
succeeded (err e) = false

module _ (w : External) where
  abbrev tried : {A : Type 0} → ℕ → ℕ → Answered A → Watched
  tried yes_tries no_tries (s, answer) = record {
    window = s;
    tries = if succeeded answer then yes_tries else no_tries;
  }

  unfoldable pub step : Call w → Watched → Watched
  step closes v = tried v.tries v.tries (close v.window)
  step (expires id) v = tried v.tries v.tries (expire id v.window)
  step (snapshots now) v = tried v.tries v.tries (snapshot w now v.window)
  step (actives now) v = tried v.tries v.tries (active w now v.window)
  step (opens now lifetime d) v = tried 0 v.tries (open_window w now lifetime d v.window)
  step (reserves now nonce) v = tried (suc v.tries) v.tries (reserve w now nonce v.window)
  step (completes now c) v = tried v.tries v.tries (complete w now c v.window)

  unfoldable pub run : List (Call w) → Watched → Watched
  run [] v = v
  run (c ∷ cs) v = run cs (step c v)

  -- Completions come with the limit `m`.
  abbrev pub HasLimit : ℕ → Call w → Type 0
  HasLimit m (completes now c) = c.max_failures ≡ some m
  HasLimit m _ = Unit

  abbrev held : Option String → ℕ
  held none = 0
  held (some token) = 1

  record IsGuarded (m : ℕ) (v : Watched) : Type 0 where
    paired : is_some v.window.code ≡ is_some v.window.id
    within : v.tries ≤ m
    counted : is_some v.window.code ≡ true → v.tries ≡ v.window.failures + held v.window.busy
    left : is_some v.window.code ≡ true → v.window.failures < m

  module _ (m : ℕ) (positive : 1 ≤ m) (v : Watched) (g : IsGuarded m v) where
    step-IsGuarded : (c : Call w) → HasLimit m c → IsGuarded m (step c v)
    unfolding step close clear expire snapshot active open_window reserve complete refreshed
    step-IsGuarded c limit = record {
      paired = ground arith;
      within = ground arith;
      counted = ground arith;
      left = ground arith;
    }

  run-IsGuarded :
      (m : ℕ)
      → 1 ≤ m
      → (cs : List (Call w)) (v : Watched) → All (HasLimit m) cs
      → IsGuarded m v
      → IsGuarded m (run cs v)
  unfolding run
  run-IsGuarded m positive [] v limits g = g
  run-IsGuarded m positive (c ∷ cs) v (limit, limits) g =
      run-IsGuarded m positive cs (step c v) limits (step-IsGuarded m positive v g c limit)

  -- Whatever is called on a pairing window, and at whatever times, as long as every completion
  -- comes with the same positive limit on failures: since the window was last opened, its code has
  -- been reserved at most as often as the limit.
  pub tries-le :
      (m : ℕ) → 1 ≤ m → (cs : List (Call w)) → All (HasLimit m) cs → (run cs unused).tries ≤ m
  tries-le m positive cs limits =
      (run-IsGuarded m positive cs unused limits
        (record { paired = refl; within = omega arith; counted = λ h. cc; left = λ h. cc })).within
