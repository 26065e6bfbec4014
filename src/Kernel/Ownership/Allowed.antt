-- ===== src/Kernel/Ownership/Allowed.antt =====
-- The decision "ALLOW_CANDIDATE" of `evaluate_ownership` in kernel/src/lib.rs.
use clinx.Prelude.{
  String, ◌≡◌, refl, subst, true, false, none, List, [], ◌∷◌, ◌++◌, All, arith, Option-cases, inl,
  inr,
}
use clinx.Prelude.Results.{ok, >>=-eq-ok}
use clinx.Json.{Json}
use clinx.Json.Access.{◌!◌, lookup, is_text}
use clinx.Kernel.Ownership.{
  Check, first_failure, run_checks, resource_checks, ownership_checks, epochs_positive,
  ownership_decision, insufficient, rejected, allowed, decide, conclude, ownership_parts, gather,
  evaluate_ownership,
}
use clinx.Kernel.Ownership.Owner.{
  IsOwner, run_checks-IsRunning, resource_checks-HoldsResource, lease_checks-HasLease,
  IsRunning-run_checks, HoldsResource-resource_checks, HasLease-lease_checks,
}

abbrev Holds : List Check → Type 0
Holds = All (λ c. c.holds ≡ true)

first_failure-none : (cs : List Check) → first_failure cs ≡ none → Holds cs
unfolding first_failure
first_failure-none [] h = tt
first_failure-none (c ∷ cs) h = (ground arith, first_failure-none cs (ground arith))

Holds-first_failure : (cs : List Check) → Holds cs → first_failure cs ≡ none
unfolding first_failure
Holds-first_failure [] h = refl
Holds-first_failure (c ∷ cs) (here, rest) = rw here (Holds-first_failure cs rest)

Holds-append : (cs ds : List Check) → Holds (cs ++ ds) → Holds cs × Holds ds
Holds-append [] ds h = (tt, h)
Holds-append (c ∷ cs) ds (here, rest) = let (a, b) = Holds-append cs ds rest in ((here, a), b)

append-Holds : (cs ds : List Check) → Holds cs → Holds ds → Holds (cs ++ ds)
append-Holds [] ds a b = b
append-Holds (c ∷ cs) ds (here, rest) b = (here, append-Holds cs ds rest b)

module _ (snapshot request : Json) where
  owner_of_checks :
      Holds (ownership_checks snapshot request)
      → epochs_positive snapshot request ≡ true
      → IsOwner snapshot request
  unfolding ownership_checks epochs_positive
  owner_of_checks h p =
      let (run, rest) = Holds-append (run_checks snapshot request) _ h in
      let (resource, lease) = Holds-append (resource_checks snapshot request) _ rest in
      record {
        running = run_checks-IsRunning snapshot request run;
        resource = resource_checks-HoldsResource snapshot request resource;
        lease = lease_checks-HasLease snapshot request lease;
        epoch_positive = ground arith;
      }

  checks_of_owner :
      IsOwner snapshot request
      → Holds (ownership_checks snapshot request) × (epochs_positive snapshot request ≡ true)
  unfolding ownership_checks epochs_positive
  checks_of_owner o = (
    append-Holds _ _ (IsRunning-run_checks snapshot request o.running) (
        append-Holds _ _ (HoldsResource-resource_checks snapshot request o.resource)
          (HasLease-lease_checks snapshot request o.lease)),
    ground (
      arith, o.running.assignment_epoch, o.resource.allocation_epoch, o.resource.resource_epoch,
      o.lease.handoff_epoch, o.epoch_positive,
    ),
  )

  -- Whether a decision allows.
  insufficient_decision :
      (ms : List String) → is_text (insufficient ms ! "decision") "ALLOW_CANDIDATE" ≡ false
  unfolding insufficient ownership_decision ◌!◌ lookup is_text
  insufficient_decision ms = refl

  rejected_decision : (c : Check) → is_text (rejected c ! "decision") "ALLOW_CANDIDATE" ≡ false
  unfolding rejected ownership_decision ◌!◌ lookup is_text
  rejected_decision c = refl

  decide-IsOwner :
      (v : Json)
      → decide snapshot request ≡ ok v
      → is_text (v ! "decision") "ALLOW_CANDIDATE" ≡ true
      → IsOwner snapshot request × (v ≡ allowed snapshot request)
  unfolding decide
  decide-IsOwner v h allow =
      elim (Option-cases (first_failure (ownership_checks snapshot request))) [
        | inr (c, failed) ↦ absurd (ground (arith, rejected_decision c))
        | inl passed ↦ (owner_of_checks (first_failure-none _ passed) (ground arith), ground arith)
      ]

  conclude-IsOwner :
      (ms : List String) (v : Json)
      → conclude snapshot request ms ≡ ok v
      → is_text (v ! "decision") "ALLOW_CANDIDATE" ≡ true
      → (ms ≡ []) × IsOwner snapshot request × (v ≡ allowed snapshot request)
  conclude-IsOwner [] v h allow = let (o, same) = decide-IsOwner v h allow in (refl, o, same)
  conclude-IsOwner (m ∷ ms) v h allow = absurd (ground (arith, insufficient_decision (m ∷ ms)))

-- A decision "ALLOW_CANDIDATE" is made only on complete evidence that shows an owner, and it is
-- the decision that carries the snapshot's versions.
pub allow-IsOwner :
    (payload v : Json)
    → evaluate_ownership payload ≡ ok v
    → is_text (v ! "decision") "ALLOW_CANDIDATE" ≡ true
    → (snapshot : Json) × (request : Json) × (ownership_parts payload ≡ ok (snapshot, request))
      × (gather snapshot request ≡ ok [])
      × IsOwner snapshot request
      × (v ≡ allowed snapshot request)
unfolding evaluate_ownership
allow-IsOwner payload v h allow =
    let (parts, split, h₁) = >>=-eq-ok (ownership_parts payload) _ h in
    let (missing, gathered, h₂) = >>=-eq-ok (gather parts.0 parts.1) _ h₁ in
    let (complete, owner, same) = conclude-IsOwner parts.0 parts.1 missing v h₂ allow in
    (
      parts.0,
      parts.1,
      split,
      subst (λ m. gather parts.0 parts.1 ≡ ok m) complete gathered,
      owner,
      same,
    )

-- On complete evidence that shows an owner the decision is "ALLOW_CANDIDATE".
pub IsOwner-allow :
    (payload snapshot request : Json)
    → ownership_parts payload ≡ ok (snapshot, request)
    → gather snapshot request ≡ ok []
    → IsOwner snapshot request
    → evaluate_ownership payload ≡ ok (allowed snapshot request)
unfolding evaluate_ownership decide
IsOwner-allow payload snapshot request split gathered owner =
    let (holds, positive) = checks_of_owner snapshot request owner in
    rw split (rw gathered (rw positive (rw (Holds-first_failure _ holds))))
