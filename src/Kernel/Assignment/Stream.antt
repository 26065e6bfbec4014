-- ===== src/Kernel/Assignment/Stream.antt =====
-- Streams of events that `replay_assignment` of kernel/src/lib.rs accepts: their numbers, their
-- hashes, their lifecycle and their versions.
use clinx.Prelude.{
  ℕ, suc, ◌+◌, String, ◌≡◌, refl, sym, ◌∙◌, ap, subst, ◌⊎◌, inl, inr, Option-cases, true, Option,
  none, some, List, [], ◌∷◌, eq_iff, arith, length,
}
use clinx.Prelude.Results.{ok, >>=-eq-ok, ensure, ensure-eq-ok, ok-injective}
use clinx.Json.{Json, number, string, object, pos_int, field, end}
use clinx.Json.Access.{lookup, ◌!◌, as_str}
use clinx.External.{External}
use clinx.Kernel.Required.{path_value}
use clinx.Kernel.Assignment.{RuntimeEvent, event_lifecycle, previous_allowed, payload_hash}
use clinx.Kernel.Assignment.State.Clean.{validate_assignment_state}
use clinx.Kernel.Assignment.State.Laws.{IsNext, IsCounted, validated-IsNext}
use clinx.Kernel.Assignment.Replay.{
  Folded, nothing_folded, lifecycle_before, envelope, object_of, fold_event, fold_events, answer,
  stream_answer, replay_stream,
}

-- The events after the first `seen`, from the lifecycle `l` to the lifecycle `r`.
abbrev pub IsWalk :
    External → String → ℕ → Option String → List RuntimeEvent → Option String → Type 0
IsWalk w stream seen l [] r = l ≡ r
IsWalk w stream seen l (e ∷ es) r =
    (e.sequence ≡ seen + 1)
    × (e.stream_id ≡ stream)
    × (payload_hash w e.payload ≡ e.payload_hash)
    × (previous_allowed e.event_type l ≡ true)
    × ((m : String) × (event_lifecycle e.event_type ≡ some m)
        × IsWalk w stream (suc seen) (some m) es r)

-- The state after `seen` events.
abbrev pub IsTracked : String → ℕ → Option Json → Type 0
IsTracked stream seen none = seen ≡ 0
IsTracked stream seen (some s) =
    (n : ℕ) × (seen ≡ suc n)
    × (path_value s "assignment.version" ≡ some (number (pos_int n)))
    × (path_value s "assignment.assignment_id" ≡ some (string stream))

lifecycle_before-shown :
    (s : Json) {l : String}
    → path_value s "assignment.lifecycle" ≡ some (string l)
    → lifecycle_before (some s) ≡ some l
unfolding lifecycle_before as_str
lifecycle_before-shown s h = ground arith

ended_final :
    (event_type l : String)
    → (l ≡ "RELEASED") ⊎ ((l ≡ "REVOKED") ⊎ (l ≡ "RECOVERED"))
    → ¬ (previous_allowed event_type (some l) ≡ true)
unfolding previous_allowed
ended_final event_type l (inl e) = rw e (ground arith)
ended_final event_type l (inr (inl e)) = rw e (ground arith)
ended_final event_type l (inr (inr e)) = rw e (ground arith)

module _ (w : External) where
  envelope-parts :
      (stream : String) (seen : ℕ) (e : RuntimeEvent)
      → envelope w stream seen e ≡ ok tt
      → (e.sequence ≡ seen + 1)
        × (e.stream_id ≡ stream)
        × (payload_hash w e.payload ≡ e.payload_hash)
  unfolding envelope
  envelope-parts stream seen e h =
      ground (arith, eq_iff e.stream_id stream, eq_iff (payload_hash w e.payload) e.payload_hash)

  -- One accepted turn of the loop.
  record IsStep (stream : String) (seen : ℕ) (f : Folded) (e : RuntimeEvent) (g : Folded)
      : Type 0 where
    in_place : envelope w stream seen e ≡ ok tt
    allowed : previous_allowed e.event_type (lifecycle_before f.state) ≡ true
    next : Json
    stored : g.state ≡ some next
    leads : IsNext e f.state next

  fold_event-IsStep :
      (stream : String) (seen : ℕ) (f : Folded) (e : RuntimeEvent) (g : Folded)
      → fold_event w stream seen f e ≡ ok g
      → IsStep stream seen f e g
  unfolding fold_event
  fold_event-IsStep stream seen f e g h =
      let (_, in_place, h₁) = >>=-eq-ok (envelope w stream seen e) _ h in
      let (payload, _, h₂) = >>=-eq-ok (object_of e.payload) _ h₁ in
      let (_, allowed, h₃) =
        >>=-eq-ok
          (ensure (previous_allowed e.event_type (lifecycle_before f.state))
            "ASSIGNMENT_TRANSITION_INVALID")
          _ h₂ in
      let ((next, unknown), valid, h₄) =
        >>=-eq-ok (validate_assignment_state w e payload f.state) _ h₃ in
      record {
        in_place = in_place;
        allowed = ensure-eq-ok _ _ allowed;
        next = next;
        stored = ap (λ x. x.state) (sym (ok-injective h₄));
        leads = validated-IsNext w e payload f.state next unknown valid;
      }

  tracked-IsCounted :
      (stream : String) {seen n : ℕ} (o : Option Json)
      → IsTracked stream seen o
      → IsCounted o n
      → seen ≡ n
  tracked-IsCounted stream none tracked counted = tracked ∙ sym counted
  tracked-IsCounted stream (some s) (m, seen, version, _) counted =
      seen ∙ (omega arith ∙ sym (counted m version))

  step-IsTracked :
      (stream : String) (seen : ℕ) (f : Folded) (e : RuntimeEvent) (g : Folded)
      → IsTracked stream seen f.state
      → IsStep stream seen f e g
      → IsTracked stream (suc seen) g.state
  step-IsTracked stream seen f e g tracked s =
      let place = envelope-parts stream seen e s.in_place in
      subst (IsTracked stream (suc seen)) (sym s.stored) (
        s.leads.version,
        ap suc (tracked-IsCounted stream f.state tracked s.leads.counted),
        s.leads.versioned,
        s.leads.identity ∙ ap (λ x. some (string x)) place.1,
      )

  step-lifecycle :
      (stream : String) (seen : ℕ) (f : Folded) (e : RuntimeEvent) (g : Folded)
      → (s : IsStep stream seen f e g) → lifecycle_before g.state ≡ some s.leads.lifecycle
  step-lifecycle stream seen f e g s =
      ap lifecycle_before s.stored ∙ lifecycle_before-shown s.next s.leads.shown

  fold_events-IsWalk :
      (stream : String) (seen : ℕ) (f : Folded) (es : List RuntimeEvent) (g : Folded)
      → fold_events w stream seen f es ≡ ok g
      → IsTracked stream seen f.state
      → IsWalk w stream seen (lifecycle_before f.state) es (lifecycle_before g.state)
        × IsTracked stream (length es + seen) g.state
  unfolding fold_events
  fold_events-IsWalk stream seen f [] g h tracked =
      let same = ok-injective h in
      (
        ap (λ x. lifecycle_before x.state) same,
        subst (λ n. IsTracked stream n g.state) (omega arith)
            (subst (λ x. IsTracked stream seen x.state) same tracked),
      )
  fold_events-IsWalk stream seen f (e ∷ es) g h tracked =
      let (f₁, first, rest) = >>=-eq-ok (fold_event w stream seen f e) _ h in
      let s = fold_event-IsStep stream seen f e f₁ first in
      let place = envelope-parts stream seen e s.in_place in
      let later =
        fold_events-IsWalk stream (suc seen) f₁ es g rest
          (step-IsTracked stream seen f e f₁ tracked s) in
      (
        (
          place.0,
          place.1,
          place.2,
          s.allowed,
          (
            s.leads.lifecycle,
            s.leads.of_event,
            subst (λ l. IsWalk w stream (suc seen) l es (lifecycle_before g.state))
                (step-lifecycle stream seen f e f₁ s) later.0,
          ),
        ),
        subst (λ n. IsTracked stream n g.state) (omega arith) later.1,
      )

  -- The answer to a stream: its state is the last one, of the stream's assignment.
  pub record IsReplay (first : RuntimeEvent) (es : List RuntimeEvent) (a : Json) : Type 0 where
    pub lifecycle : String
    pub walked : IsWalk w first.stream_id 0 none (first ∷ es) (some lifecycle)
    pub versioned :
        path_value (a ! "state") "assignment.version" ≡ some (number (pos_int (length es)))
    pub identity :
        path_value (a ! "state") "assignment.assignment_id" ≡ some (string first.stream_id)
    pub counted : a ! "stream_version" ≡ number (pos_int (suc (length es)))
    pub listed : a ! "states" ≡ object (field first.stream_id (string lifecycle) end)

  stream_answer-IsReplay :
      (first : RuntimeEvent) (es : List RuntimeEvent) (f : Folded) (s : Json) (l : String)
      → IsWalk w first.stream_id 0 none (first ∷ es) (some l)
      → path_value s "assignment.version" ≡ some (number (pos_int (length es)))
      → path_value s "assignment.assignment_id" ≡ some (string first.stream_id)
      → IsReplay first es (stream_answer w first.stream_id (length (first ∷ es)) f s l)
  unfolding ◌!◌ lookup
  stream_answer-IsReplay first es f s l walked version id = record {
    lifecycle = l;
    walked = walked;
    versioned = version;
    identity = id;
    counted = refl;
    listed = refl;
  }

  tracked-IsReplay :
      (first : RuntimeEvent) (es : List RuntimeEvent) (f : Folded) (a : Json)
      → IsWalk w first.stream_id 0 none (first ∷ es) (lifecycle_before f.state)
      → IsTracked first.stream_id (length (first ∷ es) + 0) f.state
      → answer w first.stream_id (length (first ∷ es)) f ≡ ok a
      → IsReplay first es a
  unfolding answer
  tracked-IsReplay first es f a walked tracked h = elim (Option-cases f.state) [
    | inl empty ↦ ground arith
    | inr (s, stored) ↦ elim (Option-cases (lifecycle_before (some s))) [
      | inl silent ↦ ground arith
      | inr (l, shown) ↦
          let before = ap lifecycle_before stored ∙ shown in
          let (n, many, version, id) =
            subst (IsTracked first.stream_id (length (first ∷ es) + 0)) stored tracked in
          subst (IsReplay first es) (ground arith) (
            stream_answer-IsReplay first es f s l
              (subst (IsWalk w first.stream_id 0 none (first ∷ es)) before walked)
              (version ∙ ap (λ k. some (number (pos_int k))) (omega arith)) id)
    ]
  ]

  -- An accepted stream of assignment events is numbered from one without a gap, of one assignment,
  -- each payload under its hash and each event allowed in the lifecycle where its predecessor led;
  -- the answer carries the lifecycle that the last event leads to, and the assignment of its state
  -- is the stream's, at a version that counts the events after the first.
  pub replay_stream-IsReplay :
      (first : RuntimeEvent) (es : List RuntimeEvent) (a : Json)
      → replay_stream w (first ∷ es) ≡ ok a
      → IsReplay first es a
  unfolding replay_stream lifecycle_before
  replay_stream-IsReplay first es a h =
      let (f, folded, answered) =
        >>=-eq-ok (fold_events w first.stream_id 0 nothing_folded (first ∷ es)) _ h in
      let (walked, tracked) =
        fold_events-IsWalk first.stream_id 0 nothing_folded (first ∷ es) f folded refl in
      tracked-IsReplay first es f a walked tracked answered

  -- An assignment that was released, revoked or recovered takes no further event: a stream that is
  -- accepted from there on is empty.
  pub ended_stays :
      (stream : String) (seen : ℕ) (f : Folded) (es : List RuntimeEvent) (g : Folded) (l : String)
      → (l ≡ "RELEASED") ⊎ ((l ≡ "REVOKED") ⊎ (l ≡ "RECOVERED"))
      → lifecycle_before f.state ≡ some l
      → fold_events w stream seen f es ≡ ok g
      → es ≡ []
  unfolding fold_events
  ended_stays stream seen f [] g l ended before h = refl
  ended_stays stream seen f (e ∷ es) g l ended before h =
      let (f₁, first, _) = >>=-eq-ok (fold_event w stream seen f e) _ h in
      let allowed = (fold_event-IsStep stream seen f e f₁ first).allowed in
      elim (ended_final e.event_type l ended
        (subst (λ o. previous_allowed e.event_type o ≡ true) before allowed)) [ ]
