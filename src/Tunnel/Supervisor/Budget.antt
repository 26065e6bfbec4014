-- ===== src/Tunnel/Supervisor/Budget.antt =====
-- How often kernel/src/tunnel_supervisor.rs lets a tunnel be launched.
use clinx.Prelude.{
  ℕ, suc, ◌+◌, ◌*◌, ◌≤◌, Bool, true, false, not, ◌&&◌, some, ◌≡◌, sym, ap, ◌∙◌, inl, inr, arith,
  if◌then◌else◌,
}
use clinx.Prelude.Results.{ok, err}
use clinx.Json.{Json, number, pos_int}
use clinx.Json.Access.{◌!◌, as_u64, is_true}
use clinx.External.{External}
use clinx.Tunnel.Supervisor.{Tunnel, Stepped, number_in, is_fresh_poll, step, launch}
use clinx.Tunnel.Supervisor.Launches.{IsLaunch, launch-IsLaunch}
use clinx.Tunnel.Supervisor.Resets.{IsReset, step-launches}

abbrev holds : Tunnel Bool → Bool
holds (ok b) = b
holds (err _) = false

abbrev is_later : (ℕ → ℕ → Bool) → Tunnel ℕ → Tunnel ℕ → Bool
is_later less (ok start) (ok last) = less start last
is_later less (ok _) (err _) = false
is_later less (err _) _ = false

-- A step is shown that the child runs, by a fresh poll that is later than the one that the tunnel
-- was first seen healthy with, in an earlier step.
abbrev pub shows_progress : External → Json → Bool
shows_progress w a =
    holds (is_fresh_poll w a)
    && (not (is_true (a ! "exited"))
        && is_later w.float_lt (number_in w (a ! "timing" ! "healthy_start_poll"))
            (number_in w (a ! "sample" ! "last_poll")))

-- The states that a supervisor reaches from one with a count of `n` launches under a policy of `m`
-- restarts, with the launches that were allowed on the way and the steps that showed progress.
pub data Run (w : External) (m n : ℕ) : Json → ℕ → ℕ → Type 0 where
  begins : {s : Json} → s ! "launches" ≡ number (pos_int n) → Run w m n s 0 0
  asks :
      {s : Json} {k j : ℕ} (a t : Json) (allowed : Bool)
      → Run w m n s k j
      → a ! "state" ≡ s
      → as_u64 (a ! "policy" ! "max_restarts") ≡ some m
      → launch w a ≡ ok (allowed, t)
      → Run w m n t (if allowed then suc k else k) j
  steps :
      {s : Json} {k j : ℕ} (a : Json) (r : Stepped)
      → Run w m n s k j
      → a ! "state" ≡ s
      → step w a ≡ ok r
      → Run w m n r.state k (if shows_progress w a then suc j else j)

-- A step that shows progress makes room for at most `m` launches.
record IsWithin (m n : ℕ) (s : Json) (k j : ℕ) : Type 0 where
  count : ℕ
  counted : s ! "launches" ≡ number (pos_int count)
  covers : n + k ≤ count + j * m
  limited : count ≤ suc m

ask-IsWithin :
    (m n k j : ℕ) (s a t : Json) (allowed : Bool)
    → IsWithin m n s k j
    → a ! "state" ≡ s
    → as_u64 (a ! "policy" ! "max_restarts") ≡ some m
    → IsLaunch a t allowed
    → IsWithin m n t (if allowed then suc k else k) j
unfolding as_u64
ask-IsWithin m n k j s a t allowed before same limit l =
    let counts : some l.count ≡ some before.count =
      sym l.counted ∙ ap (λ x. as_u64 (x ! "launches")) same ∙ ap as_u64 before.counted in
    let limits : some l.restarts ≡ some m = sym l.limited ∙ limit in
    elim l.outcome [
      | inl (allows, within, now) ↦ record {
        count = suc l.count;
        counted = now;
        covers = ground (arith, allows, before.covers, counts);
        limited = ground (arith, within, limits);
      }
      | inr (refuses, spent, kept) ↦ record {
        count = before.count;
        counted = ap (λ x. x ! "launches") (kept ∙ same) ∙ before.counted;
        covers = ground (arith, refuses, before.covers);
        limited = before.limited;
      }
    ]

progress-IsWithin :
    (m n k j : ℕ) (s t : Json) (b : Bool)
    → IsWithin m n s k j
    → t ! "launches" ≡ s ! "launches"
    → IsWithin m n t k (if b then suc j else j)
progress-IsWithin m n k j s t true before kept = record {
  count = before.count;
  counted = kept ∙ before.counted;
  covers = let h = before.covers in omega arith;
  limited = before.limited;
}
progress-IsWithin m n k j s t false before kept = record {
  count = before.count;
  counted = kept ∙ before.counted;
  covers = before.covers;
  limited = before.limited;
}

IsReset-shows_progress : (w : External) (a : Json) → IsReset w a → shows_progress w a ≡ true
IsReset-shows_progress w a r = rw (r.fresh, r.running, r.its_start, r.its_last) r.advances

reset-IsWithin :
    (m n k j : ℕ) (s t : Json) (b : Bool)
    → IsWithin m n s k j
    → t ! "launches" ≡ number (pos_int 1)
    → b ≡ true
    → IsWithin m n t k (if b then suc j else j)
reset-IsWithin m n k j s t true before one shown = record {
  count = 1;
  counted = one;
  covers = let h = before.covers in let l = before.limited in omega arith;
  limited = omega arith;
}
reset-IsWithin m n k j s t false before one shown = absurd (ground arith)

module _ (w : External) (irreflexive : (x : ℕ) → w.float_lt x x ≡ false) (m n : ℕ)
    (room : n ≤ suc m) where
  Run-IsWithin : {s : Json} {k j : ℕ} → Run w m n s k j → IsWithin m n s k j
  Run-IsWithin (begins stored) = record {
    count = n;
    counted = stored;
    covers = omega arith;
    limited = room;
  }
  Run-IsWithin (asks {s} {k} {j} a t allowed run same limit launched) =
      ask-IsWithin m n k j s a t allowed (Run-IsWithin run) same limit
        (launch-IsLaunch w a t allowed launched)
  Run-IsWithin (steps {s} {k} {j} a r run same stepped) =
      let before = Run-IsWithin run in
      elim (step-launches w irreflexive a r stepped) [
        | inl (one, reset) ↦
            reset-IsWithin m n k j s r.state (shows_progress w a) before one
              (IsReset-shows_progress w a reset)
        | inr kept ↦
            progress-IsWithin m n k j s r.state (shows_progress w a) before
              (kept ∙ ap (λ x. x ! "launches") same)
      ]

  -- Where no float is less than itself, and a supervisor starts with a count of `n` launches that
  -- is at most one more than the `m` restarts of its policy: however it is asked for launches and
  -- stepped, `n` and the launches that it has been allowed since are together at most one more
  -- than `m`, and `m` more for every step that is shown progress, which is a fresh poll of a
  -- running child that is later than the one that the tunnel was first seen healthy with.
  pub launches-le : (s : Json) (k j : ℕ) → Run w m n s k j → n + k ≤ suc m + j * m
  launches-le s k j run =
      let within = Run-IsWithin run in
      let h = within.covers in let l = within.limited in omega arith
