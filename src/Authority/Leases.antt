-- ===== src/Authority/Leases.antt =====
-- `claim` of kernel/src/authority_store.rs, and the release that `commit_core` makes. The clock, the
-- drawn capability and the identity of the boot are arguments.
pub mod Exclusive
pub mod Grants
pub mod Holders
use Prim.Native.String
use Prim.Native.String.{len}
use clinx.Prelude.{
  ℕ, suc, ◌+◌, ◌-◌, String, Bool, true, false, not, ◌&&◌, ◌||◌, Option, none, some, List, [], ◌∷◌,
  ◌==◌, leb, ltb, any, is_some, is_some_and, filter_some, unwrap_or, if◌then◌else◌,
}
use clinx.Prelude.Int.{ℤ, pos, negsuc, ltb_ℤ, leb_ℤ, eqb_ℤ, eqb_option, ◌+ℤ◌, i64_max, u64_max}
use clinx.Prelude.Results.{Result, ok, err, ◌>>=◌, ensure}
use clinx.Json.{Number, pos_int, neg_int, Json, null, number, string, object, Fields, fields_of}
use clinx.Json.Access.{◌!◌, as_str, as_i64, is_text}
use clinx.External.{External}
use clinx.ExecutionCore.Evidence.{keys}
use clinx.ExecutionCore.Canonical.{digest}
use clinx.Authority.Tables.{
  max_lease_ms, Stored, LeaseState, Lease, Renewal, Tables, no_rows, is_active, epoch_of, put_epoch,
  at_key, find_lease, update_lease, insert_lease, renewal_key, find_renewal, has_commit, int_json,
  wrap_i64, ends_at, text_member, int_member, lease_length, active, released,
}

abbrev pub texts : Json → List String → Stored (Unit {0})
texts v [] = ok tt
texts v (k ∷ ks) = do _ ← text_member v k; texts v ks

abbrev pub owner_members : List String
owner_members =
    "execution_id" ∷ "attempt_id" ∷ "assignment_id" ∷ "worker_id" ∷ "incarnation_id" ∷ []

-- The answer that a claim has, again or for the first time.
abbrev pub lease_json : String → String → ℤ → String → ℤ → Json
lease_json verdict resource epoch capability expires = object (
    fields_of (
      ("capability", string capability)
      ∷ ("epoch", int_json epoch)
      ∷ ("expires_ms", int_json expires)
      ∷ ("resource", string resource)
      ∷ ("verdict", string verdict)
      ∷ []))

-- A claim, checked before the transaction.
pub record Claim : Type 0 where
  pub resource : String
  pub claim_id : String
  pub expected : ℤ
  pub duration : ℤ
  pub owner : Json
  pub hash : String

-- What an operation draws and reads outside the store.
pub record Moment : Type 0 where
  pub now : ℤ
  pub boot : String
  pub identity : String
  pub drawn : Option String

module _ (w : External) where
  unfoldable pub checked_claim : Json → Stored Claim
  unfolding text_member
  checked_claim p = do
    _ ←
        ensure (keys p ("resource" ∷ "expected_epoch" ∷ "claim_id" ∷ "owner" ∷ "lease_ms" ∷ []))
          "INVALID_CLAIM"
    resource ← text_member p "resource"
    id ← text_member p "claim_id"
    expected ←
        int_member p "expected_epoch" (λ v. leb_ℤ (pos 0) v && ltb_ℤ v (pos i64_max))
          "INVALID_EPOCH"
    duration ← int_member p "lease_ms" lease_length "INVALID_LEASE"
    _ ←
        ensure
          (keys (p ! "owner") (
              "execution_id" ∷ "attempt_id" ∷ "assignment_id" ∷ "worker_id" ∷ "incarnation_id"
              ∷ "resource_key" ∷ "resource_epoch" ∷ [])
            && (is_text (p ! "owner" ! "resource_key") resource
                && eqb_option (as_i64 (p ! "owner" ! "resource_epoch"))
                    (some (◌+ℤ◌ expected (pos 1)))))
          "OWNER_IDENTITY_CONFLICT"
    _ ← texts (p ! "owner") owner_members
    ok (record {
      resource = resource;
      claim_id = id;
      expected = expected;
      duration = duration;
      owner = p ! "owner";
      hash = digest w p;
    })

-- The prior lease of the resource is released.
unfoldable pub prior_released : Tables → String → Option ℤ → Stored (Unit {0})
unfolding find_lease
prior_released t r none = ok tt
prior_released t r (some e) = elim (find_lease (at_key r e) t.leases) [
  | none ↦ err "STORAGE_ERROR"
  | some l ↦ ensure (not (is_active l.state)) "RESOURCE_STILL_HELD"
]

abbrev pub new_lease : Moment → Claim → String → Lease
new_lease o c capability = record {
  resource = c.resource;
  epoch = ◌+ℤ◌ c.expected (pos 1);
  claim_id = c.claim_id;
  request_hash = c.hash;
  owner = c.owner;
  capability = capability;
  boot = o.boot;
  expires_ms = ends_at o.now c.duration;
  claim_expires_ms = ends_at o.now c.duration;
  state = active;
}

abbrev pub is_next : Claim → Tables → Bool
is_next c t = eqb_ℤ (unwrap_or (epoch_of c.resource t.resources) (pos 0)) c.expected

-- `random_id`
abbrev pub drawn_token : Moment → Stored String
drawn_token o = elim o.drawn [ none ↦ err "ENTROPY" | some s ↦ ok s ]

abbrev pub claimed : Claim → List Lease → Tables → Tables
claimed c leases t = record {
  resources = put_epoch c.resource (◌+ℤ◌ c.expected (pos 1)) t.resources;
  leases = leases;
  renewals = t.renewals;
  commits = t.commits;
  outbox = t.outbox;
}

-- The transaction of a claim that no lease has the id of.
unfoldable pub claim_new : Moment → Claim → Tables → Stored (Tables × Json)
unfolding prior_released insert_lease
claim_new o c t = do
  _ ← ensure (is_next c t) "EPOCH_CAS_CONFLICT"
  _ ← prior_released t c.resource (epoch_of c.resource t.resources)
  capability ← drawn_token o
  leases ← insert_lease (new_lease o c capability) t.leases
  ok (
    claimed c leases t,
    lease_json "APPLY" c.resource (◌+ℤ◌ c.expected (pos 1)) capability (ends_at o.now c.duration),
  )

abbrev pub claim_again : Claim → Lease → Tables → Stored (Tables × Json)
claim_again c l t =
    if l.request_hash == c.hash
    then ok (t, lease_json "DUPLICATE" c.resource l.epoch l.capability l.claim_expires_ms)
    else err "CLAIM_ID_CONFLICT"

unfoldable pub claim_checked : Moment → Claim → Tables → Stored (Tables × Json)
unfolding claim_new
claim_checked o c t = elim (find_lease (λ l. l.claim_id == c.claim_id) t.leases) [
  | some l ↦ claim_again c l t
  | none ↦ claim_new o c t
]

module _ (w : External) where
  -- An error leaves the tables: the transaction is rolled back.
  unfoldable pub claim : Moment → Json → Tables → Stored (Tables × Json)
  unfolding checked_claim claim_checked
  claim o p t = do c ← checked_claim w p; claim_checked o c t

-- `tx.execute("UPDATE leases SET state='RELEASED' …")` in `commit_core`.
abbrev pub set_released : Lease → Lease
set_released l = record {
  resource = l.resource;
  epoch = l.epoch;
  claim_id = l.claim_id;
  request_hash = l.request_hash;
  owner = l.owner;
  capability = l.capability;
  boot = l.boot;
  expires_ms = l.expires_ms;
  claim_expires_ms = l.claim_expires_ms;
  state = released;
}

unfoldable pub release : String → ℤ → Tables → Tables
unfolding update_lease
release r e t = record {
  resources = t.resources;
  leases = update_lease r e set_released t.leases;
  renewals = t.renewals;
  commits = t.commits;
  outbox = t.outbox;
}
