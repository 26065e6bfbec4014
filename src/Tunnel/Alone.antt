-- ===== src/Tunnel/Alone.antt =====
-- When `acquire` of kernel/src/tunnel_supervisor.rs hands the stored state to a supervisor.
use clinx.Prelude.{
  ℕ, ◌≤◌, String, Bool, true, false, not, ◌&&◌, ◌||◌, Option, some, List, [], ◌∷◌, ◌≡◌, refl, sym,
  ap, ◌∙◌, ◌⊎◌, inl, inr, arith, All, Bool-cases, &&-eq-true, is_some, filter_some, ltb, leb,
  if◌then◌else◌,
}
use clinx.Prelude.Results.{ok, err, ◌>>=◌, >>=-eq-ok, ensure, ensure-eq-ok, ok-injective}
use clinx.Json.{Json}
use clinx.Json.Access.{◌!◌, as_u64, is_null, is_text}
use clinx.Json.Equality.{json_eq}
use clinx.Tunnel.Process.{
  Stat, stat, vanished, unread, Entry, entry, unlisted, is_process, read_group, in_group,
  group_live,
}
use clinx.Tunnel.Supervisor.{Tunnel, option_err}
use clinx.Tunnel.Operations.{
  Machine, is_zero, child_gone, pid_gone, child_pid, i32_max, acquire_stored,
}

-- A listed process, read while it was there, is no live member of the group.
unfoldable pub IsOutside : ℕ → Entry → Type 0
IsOutside pid (entry name (stat text)) = is_process name ≡ true → in_group pid text ≡ ok false
IsOutside pid (entry name vanished) = Unit
IsOutside pid (entry name unread) = is_process name ≡ false
IsOutside pid unlisted = ⊥

not_live :
    (m : Tunnel Bool) (rest : Tunnel Bool)
    → (m >>= λ live. if live then ok true else rest) ≡ ok false
    → (m ≡ ok false) × (rest ≡ ok false)
not_live (ok true) rest h = cc
not_live (ok false) rest h = (refl, h)
not_live (err e) rest h = cc

read-IsOutside :
    (pid : ℕ) (name : String) (s : Stat)
    → read_group pid s ≡ ok false
    → IsOutside pid (entry name s)
unfolding IsOutside
read-IsOutside pid name (stat text) quiet = λ process. quiet
read-IsOutside pid name vanished quiet = tt
read-IsOutside pid name unread quiet = cc

unlisted-IsOutside :
    (pid : ℕ) (name : String) (s : Stat) → is_process name ≡ false → IsOutside pid (entry name s)
unfolding IsOutside
unlisted-IsOutside pid name (stat text) other = λ process. cc
unlisted-IsOutside pid name vanished other = tt
unlisted-IsOutside pid name unread other = other

group_live-All : (pid : ℕ) (es : List Entry) → group_live pid es ≡ ok false → All (IsOutside pid) es
unfolding group_live IsOutside
group_live-All pid [] h = tt
group_live-All pid (unlisted ∷ es) h = cc
group_live-All pid (entry name s ∷ es) h = elim (Bool-cases (is_process name)) [
  | inl process ↦
      let (quiet, rest) = not_live (read_group pid s) (group_live pid es) (ground arith) in
      (read-IsOutside pid name s quiet, group_live-All pid es rest)
  | inr other ↦ (unlisted-IsOutside pid name s other, group_live-All pid es (ground arith))
]

-- A state that may be taken over: it is this tunnel's, no launch of it is in doubt, and its child
-- is gone with all that stands in the list of processes under the child's group.
pub record IsAlone (m : Machine) (a state : Json) : Type 0 where
  pub own : json_eq m.external (state ! "identity") (a ! "identity") ≡ true
  pub counted : is_some (as_u64 (state ! "launches")) ≡ true
  pub settled : is_text (state ! "reason") "LAUNCH_INTENT" ≡ false
  pub childless :
      ((is_null (state ! "child_pid") || is_zero m (state ! "child_pid")) ≡ true)
      ⊎ ((id : ℕ) × (as_u64 (state ! "child_pid") ≡ some id)
          × (1 ≤ id)
          × (id ≤ i32_max)
          × (m.is_gone id ≡ true)
          × All (IsOutside id) m.listing)

not-true : (b : Bool) → not b ≡ true → b ≡ false
not-true true h = cc
not-true false h = refl

pid_in_range :
    (v : Option ℕ) (id : ℕ)
    → option_err "PRIOR_CHILD_IDENTITY_INVALID" (filter_some v (λ n. ltb 0 n && leb n i32_max))
      ≡ ok id
    → (v ≡ some id) × (1 ≤ id) × (id ≤ i32_max)
pid_in_range v id h = (ground arith, ground arith, ground arith)

pid_gone-childless :
    (m : Machine) (v : Json)
    → pid_gone m v ≡ ok tt
    → (id : ℕ) × (as_u64 v ≡ some id)
      × (1 ≤ id)
      × (id ≤ i32_max)
      × (m.is_gone id ≡ true)
      × All (IsOutside id) m.listing
unfolding pid_gone
pid_gone-childless m v h =
    let (id, its, h₁) = >>=-eq-ok (child_pid m v) _ h in
    let (_, gone, h₂) =
      >>=-eq-ok (ensure (m.is_gone id) "PRIOR_CHILD_MAY_BE_LIVE_NO_ADOPTION_OR_DUPLICATION") _ h₁ in
    let (live, listed, h₃) = >>=-eq-ok (group_live id m.listing) _ h₂ in
    let (exact, least, most) = pid_in_range (as_u64 v) id its in
    let quiet : live ≡ false = not-true live (ensure-eq-ok _ _ h₃) in
    (
      id,
      exact,
      least,
      most,
      ensure-eq-ok _ _ gone,
      group_live-All id m.listing (listed ∙ ap ok quiet),
    )

child_gone-cases :
    (m : Machine) (v : Json)
    → child_gone m v ≡ ok tt
    → ((is_null v || is_zero m v) ≡ true) ⊎ (pid_gone m v ≡ ok tt)
unfolding child_gone
child_gone-cases m v h = elim (Bool-cases (is_null v || is_zero m v)) [
  | inl absent ↦ inl absent
  | inr child ↦ inr (ground arith)
]

-- A stored state is handed over unchanged, and only if it is that tunnel's, no launch of it is in
-- doubt, and its child is gone together with every listed process of the child's group.
pub acquire_stored-IsAlone :
    (m : Machine) (a state s : Json)
    → acquire_stored m a state ≡ ok s
    → (s ≡ state) × IsAlone m a state
unfolding acquire_stored
acquire_stored-IsAlone m a state s h =
    let identified =
      json_eq m.external (state ! "identity") (a ! "identity")
      && is_some (as_u64 (state ! "launches")) in
    let (_, own, h₁) = >>=-eq-ok (ensure identified "STATE_IDENTITY_OR_BUDGET_INVALID") _ h in
    let (_, settled, h₂) =
      >>=-eq-ok
        (ensure (not (is_text (state ! "reason") "LAUNCH_INTENT"))
          "SPAWN_OUTCOME_UNKNOWN_NO_DUPLICATE_CONSUMER")
        _ h₁ in
    let (_, gone, h₃) = >>=-eq-ok (child_gone m (state ! "child_pid")) _ h₂ in
    let (its, counted) = &&-eq-true _ _ (ensure-eq-ok _ _ own) in
    (
      sym (ok-injective h₃),
      record {
        own = its;
        counted = counted;
        settled = not-true _ (ensure-eq-ok _ _ settled);
        childless = elim (child_gone-cases m (state ! "child_pid") gone) [
          | inl absent ↦ inl absent
          | inr left ↦ inr (pid_gone-childless m (state ! "child_pid") left)
        ];
      },
    )
