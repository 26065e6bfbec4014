-- ===== src/Tests/Windows.antt =====
-- The theorems on pairing windows, at a window that is opened and reserved.
use clinx.Prelude.{String, false, ◌≡◌, ◌≤◌, refl, none, some, List, [], ◌∷◌, arith}
use clinx.Prelude.Results.{ok}
use clinx.Discovery.Window.{Window, new_window, Draws, Completion}
use clinx.Discovery.Window.Pairing.{IsHeld, reserve-IsHeld, complete_frees}
use clinx.Discovery.Window.Attempts.{Call, opens, reserves, completes, unused, tries-le}
use clinx.Tests.{ext}
use clinx.Discovery.Window.{
  clear, close, expire, pin, expired, refreshed, active, open_window, reserve, complete, shown,
  snapshot,
}
use clinx.Discovery.Window.Attempts.{step, run}

abbrev draws : Draws
draws = record { bits = some 1234; nonce = some "w" }

abbrev wrong : Completion ext
wrong = record { reservation = some "t"; success = false; max_failures = some 3; commit = none }

abbrev opened : Window
opened = record {
  code = some "1234";
  id = some "w";
  expires = 110;
  next_attempt = 10;
  next_open = 110;
  busy = none;
  failures = 0;
}

abbrev reserved : Window
reserved = record opened { busy = some "t"; next_attempt = 21 }

window-opens : open_window ext 10 (some 100) draws new_window ≡ (opened, ok "1234")
unfolding clear close expire pin expired refreshed active open_window reserve complete shown
    snapshot step run
window-opens = refl

window-reserves : reserve ext 20 (some "t") opened ≡ (reserved, ok reserved)
unfolding clear close expire pin expired refreshed active open_window reserve complete shown
    snapshot step run
window-reserves = refl

reserve-IsHeld_example :
    (token : String) × (some "t" ≡ some token) × (reserved ≡ reserved) × IsHeld ext reserved token
reserve-IsHeld_example = reserve-IsHeld ext 20 (some "t") opened reserved reserved window-reserves

complete_frees_example : (complete ext 30 wrong reserved).0.busy ≡ none
complete_frees_example = complete_frees ext 30 wrong reserved "t" refl refl

abbrev calls : List (Call ext)
calls = opens 10 (some 100) draws ∷ reserves 20 (some "t") ∷ completes 30 wrong ∷ []

tries-le_example : (run ext calls unused).tries ≤ 3
tries-le_example = tries-le ext 3 (omega arith) calls (tt, (tt, (refl, tt)))
