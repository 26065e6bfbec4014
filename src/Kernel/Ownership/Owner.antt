-- ===== src/Kernel/Ownership/Owner.antt =====
-- Ownership stated of the snapshot and the request alone, and its agreement with the lists of
-- checks that kernel/src/lib.rs runs.
use clinx.Prelude.{
  ℕ, ◌<◌, String, ◌≡◌, refl, Bool, true, false, not, ◌&&◌, All, arith, ◌==◌, eq_iff, eqb, eqb_iff,
  &&-eq-true,
}
use clinx.Json.{Json}
use clinx.Kernel.Ownership.{text_at, integer_at, text_lt, run_checks, resource_checks, lease_checks}

-- The execution, the attempt, the worker, its incarnation and its assignment are live and the
-- request's.
pub record IsRunning (snapshot request : Json) : Type 0 where
  pub execution_id : text_at snapshot "execution.execution_id" ≡ text_at request "execution_id"
  pub execution_live : text_at snapshot "execution.lifecycle" ≡ "REQUESTED"
  pub attempt_execution :
      text_at snapshot "attempt.execution_id" ≡ text_at snapshot "execution.execution_id"
  pub attempt_id : text_at snapshot "attempt.attempt_id" ≡ text_at request "attempt_id"
  pub attempt_assigned : text_at snapshot "attempt.lifecycle" ≡ "ASSIGNED"
  pub worker_id : text_at snapshot "worker.worker_id" ≡ text_at request "worker_id"
  pub worker_registered : text_at snapshot "worker.lifecycle" ≡ "REGISTERED"
  pub incarnation_current :
      text_at snapshot "worker.current_incarnation_id" ≡ text_at request "incarnation_id"
  pub incarnation_id :
      text_at snapshot "incarnation.incarnation_id" ≡ text_at request "incarnation_id"
  pub incarnation_worker : text_at snapshot "incarnation.worker_id" ≡ text_at request "worker_id"
  pub incarnation_active : text_at snapshot "incarnation.lifecycle" ≡ "ACTIVE"
  pub assignment_id : text_at snapshot "assignment.assignment_id" ≡ text_at request "assignment_id"
  pub assignment_attempt : text_at snapshot "assignment.attempt_id" ≡ text_at request "attempt_id"
  pub assignment_worker : text_at snapshot "assignment.worker_id" ≡ text_at request "worker_id"
  pub assignment_incarnation :
      text_at snapshot "assignment.incarnation_id" ≡ text_at request "incarnation_id"
  pub assignment_resource :
      text_at snapshot "assignment.resource_key" ≡ text_at request "resource_key"
  pub assignment_active : text_at snapshot "assignment.lifecycle" ≡ "ACTIVE"
  pub assignment_epoch :
      integer_at snapshot "assignment.resource_epoch" ≡ integer_at request "resource_epoch"

-- The allocation and the resource are the request's, at its epoch and its expected versions.
pub record HoldsResource (snapshot request : Json) : Type 0 where
  pub allocation_id : text_at snapshot "allocation.allocation_id" ≡ text_at request "allocation_id"
  pub allocation_assignment :
      text_at snapshot "allocation.assignment_id" ≡ text_at request "assignment_id"
  pub allocation_attempt : text_at snapshot "allocation.attempt_id" ≡ text_at request "attempt_id"
  pub allocation_worker : text_at snapshot "allocation.worker_id" ≡ text_at request "worker_id"
  pub allocation_incarnation :
      text_at snapshot "allocation.incarnation_id" ≡ text_at request "incarnation_id"
  pub allocation_resource :
      text_at snapshot "allocation.resource_key" ≡ text_at request "resource_key"
  pub allocation_active : text_at snapshot "allocation.lifecycle" ≡ "ACTIVE"
  pub allocation_epoch :
      integer_at snapshot "allocation.resource_epoch" ≡ integer_at request "resource_epoch"
  pub resource_key : text_at snapshot "resource.resource_key" ≡ text_at request "resource_key"
  pub resource_epoch :
      integer_at snapshot "resource.fencing_epoch" ≡ integer_at request "resource_epoch"
  pub assignment_version :
      integer_at snapshot "assignment.version" ≡ integer_at request "expected_assignment_version"
  pub allocation_version :
      integer_at snapshot "allocation.version" ≡ integer_at request "expected_allocation_version"
  pub resource_version :
      integer_at snapshot "resource.version" ≡ integer_at request "expected_resource_version"

-- The trusted clock is before the lease's end, and the safety handoff to the owner is verified.
pub record HasLease (snapshot request : Json) : Type 0 where
  pub same_lease :
      text_at snapshot "assignment.lease_expires_at" ≡ text_at snapshot "allocation.expires_at"
  pub clock_trusted : text_at snapshot "clock.source" ≡ "COORDINATOR_TRUSTED"
  pub clock_monotone :
      text_lt (text_at snapshot "clock.now") (text_at snapshot "clock.watermark") ≡ false
  pub unexpired :
      text_lt (text_at snapshot "clock.now") (text_at snapshot "assignment.lease_expires_at") ≡ true
  pub handoff_verified : text_at snapshot "safety_handoff.state" ≡ "VERIFIED"
  pub handoff_assignment :
      text_at snapshot "safety_handoff.assignment_id" ≡ text_at request "assignment_id"
  pub handoff_worker : text_at snapshot "safety_handoff.worker_id" ≡ text_at request "worker_id"
  pub handoff_incarnation :
      text_at snapshot "safety_handoff.incarnation_id" ≡ text_at request "incarnation_id"
  pub handoff_attempt : text_at snapshot "safety_handoff.attempt_id" ≡ text_at request "attempt_id"
  pub handoff_resource :
      text_at snapshot "safety_handoff.resource_key" ≡ text_at request "resource_key"
  pub handoff_epoch :
      integer_at snapshot "safety_handoff.resource_epoch" ≡ integer_at request "resource_epoch"

same_text : (a b : String) → (a == b) ≡ true → a ≡ b
same_text a b h = (eq_iff a b).0 h

same_integer : (a b : ℕ) → eqb a b ≡ true → a ≡ b
same_integer a b h = (eqb_iff a b).0 h

eq_false : (b : Bool) → not b ≡ true → b ≡ false
eq_false b h = ground arith

text_same : (a b : String) → a ≡ b → (a == b) ≡ true
text_same a b h = (eq_iff a b).1 h

integer_same : (a b : ℕ) → a ≡ b → eqb a b ≡ true
integer_same a b h = (eqb_iff a b).1 h

both_true : (a b : Bool) → a ≡ true → b ≡ true → (a && b) ≡ true
both_true a b h k = ground arith

pub run_checks-IsRunning :
    (snapshot request : Json)
    → All (λ c. c.holds ≡ true) (run_checks snapshot request)
    → IsRunning snapshot request
unfolding run_checks
run_checks-IsRunning snapshot request h = record {
  execution_id = same_text _ _ (h.0);
  execution_live = same_text _ _ (h.1.0);
  attempt_execution = same_text _ _ (&&-eq-true _ _ (h.1.1.0)).0;
  attempt_id = same_text _ _ (&&-eq-true _ _ (h.1.1.0)).1;
  attempt_assigned = same_text _ _ (h.1.1.1.0);
  worker_id = same_text _ _ (h.1.1.1.1.0);
  worker_registered = same_text _ _ (h.1.1.1.1.1.0);
  incarnation_current = same_text _ _ (h.1.1.1.1.1.1.0);
  incarnation_id = same_text _ _ (&&-eq-true _ _ (h.1.1.1.1.1.1.1.0)).0;
  incarnation_worker = same_text _ _ (&&-eq-true _ _ (h.1.1.1.1.1.1.1.0)).1;
  incarnation_active = same_text _ _ (h.1.1.1.1.1.1.1.1.0);
  assignment_id = same_text _ _ (h.1.1.1.1.1.1.1.1.1.0);
  assignment_attempt = same_text _ _ (h.1.1.1.1.1.1.1.1.1.1.0);
  assignment_worker = same_text _ _ (h.1.1.1.1.1.1.1.1.1.1.1.0);
  assignment_incarnation = same_text _ _ (h.1.1.1.1.1.1.1.1.1.1.1.1.0);
  assignment_resource = same_text _ _ (h.1.1.1.1.1.1.1.1.1.1.1.1.1.0);
  assignment_active = same_text _ _ (h.1.1.1.1.1.1.1.1.1.1.1.1.1.1.0);
  assignment_epoch = same_integer _ _ (h.1.1.1.1.1.1.1.1.1.1.1.1.1.1.1.0);
}

pub resource_checks-HoldsResource :
    (snapshot request : Json)
    → All (λ c. c.holds ≡ true) (resource_checks snapshot request)
    → HoldsResource snapshot request
unfolding resource_checks
resource_checks-HoldsResource snapshot request h = record {
  allocation_id = same_text _ _ (h.0);
  allocation_assignment = same_text _ _ (h.1.0);
  allocation_attempt = same_text _ _ (h.1.1.0);
  allocation_worker = same_text _ _ (h.1.1.1.0);
  allocation_incarnation = same_text _ _ (h.1.1.1.1.0);
  allocation_resource = same_text _ _ (h.1.1.1.1.1.0);
  allocation_active = same_text _ _ (h.1.1.1.1.1.1.0);
  allocation_epoch = same_integer _ _ (h.1.1.1.1.1.1.1.0);
  resource_key = same_text _ _ (h.1.1.1.1.1.1.1.1.0);
  resource_epoch = same_integer _ _ (h.1.1.1.1.1.1.1.1.1.0);
  assignment_version = same_integer _ _ (h.1.1.1.1.1.1.1.1.1.1.0);
  allocation_version = same_integer _ _ (h.1.1.1.1.1.1.1.1.1.1.1.0);
  resource_version = same_integer _ _ (h.1.1.1.1.1.1.1.1.1.1.1.1.0);
}

pub lease_checks-HasLease :
    (snapshot request : Json)
    → All (λ c. c.holds ≡ true) (lease_checks snapshot request)
    → HasLease snapshot request
unfolding lease_checks
lease_checks-HasLease snapshot request h = record {
  same_lease = same_text _ _ (h.0);
  clock_trusted = same_text _ _ (h.1.0);
  clock_monotone = eq_false _ (h.1.1.0);
  unexpired = h.1.1.1.0;
  handoff_verified = same_text _ _ (h.1.1.1.1.0);
  handoff_assignment = same_text _ _ (h.1.1.1.1.1.0);
  handoff_worker = same_text _ _ (h.1.1.1.1.1.1.0);
  handoff_incarnation = same_text _ _ (h.1.1.1.1.1.1.1.0);
  handoff_attempt = same_text _ _ (h.1.1.1.1.1.1.1.1.0);
  handoff_resource = same_text _ _ (h.1.1.1.1.1.1.1.1.1.0);
  handoff_epoch = same_integer _ _ (h.1.1.1.1.1.1.1.1.1.1.0);
}

pub IsRunning-run_checks :
    (snapshot request : Json)
    → IsRunning snapshot request
    → All (λ c. c.holds ≡ true) (run_checks snapshot request)
unfolding run_checks
IsRunning-run_checks snapshot request o = (
  text_same _ _ o.execution_id,
  (
    text_same _ _ o.execution_live,
    (
      both_true _ _ (text_same _ _ o.attempt_execution) (text_same _ _ o.attempt_id),
      (
        text_same _ _ o.attempt_assigned,
        (
          text_same _ _ o.worker_id,
          (
            text_same _ _ o.worker_registered,
            (
              text_same _ _ o.incarnation_current,
              (
                both_true _ _ (text_same _ _ o.incarnation_id) (text_same _ _ o.incarnation_worker),
                (
                  text_same _ _ o.incarnation_active,
                  (
                    text_same _ _ o.assignment_id,
                    (
                      text_same _ _ o.assignment_attempt,
                      (
                        text_same _ _ o.assignment_worker,
                        (
                          text_same _ _ o.assignment_incarnation,
                          (
                            text_same _ _ o.assignment_resource,
                            (
                              text_same _ _ o.assignment_active,
                              (integer_same _ _ o.assignment_epoch, tt),
                            ),
                          ),
                        ),
                      ),
                    ),
                  ),
                ),
              ),
            ),
          ),
        ),
      ),
    ),
  ),
)

pub HoldsResource-resource_checks :
    (snapshot request : Json)
    → HoldsResource snapshot request
    → All (λ c. c.holds ≡ true) (resource_checks snapshot request)
unfolding resource_checks
HoldsResource-resource_checks snapshot request o = (
  text_same _ _ o.allocation_id,
  (
    text_same _ _ o.allocation_assignment,
    (
      text_same _ _ o.allocation_attempt,
      (
        text_same _ _ o.allocation_worker,
        (
          text_same _ _ o.allocation_incarnation,
          (
            text_same _ _ o.allocation_resource,
            (
              text_same _ _ o.allocation_active,
              (
                integer_same _ _ o.allocation_epoch,
                (
                  text_same _ _ o.resource_key,
                  (
                    integer_same _ _ o.resource_epoch,
                    (
                      integer_same _ _ o.assignment_version,
                      (
                        integer_same _ _ o.allocation_version,
                        (integer_same _ _ o.resource_version, tt),
                      ),
                    ),
                  ),
                ),
              ),
            ),
          ),
        ),
      ),
    ),
  ),
)

pub HasLease-lease_checks :
    (snapshot request : Json)
    → HasLease snapshot request
    → All (λ c. c.holds ≡ true) (lease_checks snapshot request)
unfolding lease_checks
HasLease-lease_checks snapshot request o = (
  text_same _ _ o.same_lease,
  (
    text_same _ _ o.clock_trusted,
    (
      rw o.clock_monotone refl,
      (
        o.unexpired,
        (
          text_same _ _ o.handoff_verified,
          (
            text_same _ _ o.handoff_assignment,
            (
              text_same _ _ o.handoff_worker,
              (
                text_same _ _ o.handoff_incarnation,
                (
                  text_same _ _ o.handoff_attempt,
                  (text_same _ _ o.handoff_resource, (integer_same _ _ o.handoff_epoch, tt)),
                ),
              ),
            ),
          ),
        ),
      ),
    ),
  ),
)

-- The requesting worker owns the resource.
pub record IsOwner (snapshot request : Json) : Type 0 where
  pub running : IsRunning snapshot request
  pub resource : HoldsResource snapshot request
  pub lease : HasLease snapshot request
  pub epoch_positive : 0 < integer_at request "resource_epoch"
