-- ===== src/Tunnel/Process.antt =====
-- What kernel/src/tunnel_supervisor.rs reads of processes in `/proc`.
use clinx.Prelude.{
  ℕ, zero, suc, String, Bool, true, false, not, ◌&&◌, Option, none, some, List, [], ◌∷◌, ◌==◌, eqb,
  if◌then◌else◌,
}
use clinx.Prelude.Results.{Result, ok, err, ◌>>=◌}
use clinx.Prelude.Scan.{rsplit_after, words, parse_u64}

-- Reading a process's file `stat`: its text, that it is gone, or another error.
pub data Stat : Type 0 where
  stat : String → Stat
  vanished : Stat
  unread : Stat

-- An entry of the directory `/proc`, in the order it is listed.
pub data Entry : Type 0 where
  entry : String → Stat → Entry
  unlisted : Entry

unfoldable pub nth : ℕ → List String → Option String
nth n [] = none
nth zero (w ∷ ws) = some w
nth (suc n) (w ∷ ws) = nth n ws

abbrev is_zombie : List String → Bool
is_zombie [] = false
is_zombie (w ∷ ws) = w == "Z"

abbrev start_of : List String → Option String
start_of fields = if is_zombie fields then none else nth 19 fields

-- `process_start` behind the number of the process.
unfoldable pub process_start : Stat → Option String
unfolding nth
process_start (stat text) = elim (rsplit_after 41 text) [
  | none ↦ none
  | some tail ↦ start_of (words tail)
]
process_start other = none

abbrev option_err : {A : Type 0} → String → Option A → Result String A
option_err e none = err e
option_err e (some a) = ok a

-- Whether a process's text is of a live member of the group.
unfoldable pub in_group : ℕ → String → Result String Bool
unfolding nth
in_group pid text = do
  tail ← option_err "PROCESS_STATE_INVALID" (rsplit_after 41 text)
  group ← option_err "PROCESS_STATE_INVALID" (nth 2 (words tail))
  number ← option_err "PROCESS_STATE_INVALID" (parse_u64 group)
  ok (eqb number pid && not (is_zombie (words tail)))

abbrev pub read_group : ℕ → Stat → Result String Bool
read_group pid (stat text) = in_group pid text
read_group pid vanished = ok false
read_group pid unread = err "PROCESS_STATE_UNAVAILABLE"

abbrev pub is_process : String → Bool
is_process name = elim (parse_u64 name) [ none ↦ false | some n ↦ true ]

unfoldable pub group_live : ℕ → List Entry → Result String Bool
unfolding in_group
group_live pid [] = ok false
group_live pid (unlisted ∷ es) = err "PROCESS_STATE_UNAVAILABLE"
group_live pid (entry name s ∷ es) =
    let rest = group_live pid es in
    if is_process name then (do live ← read_group pid s; if live then ok true else rest) else rest
