-- ===== src/Authority/Renewals.antt =====
-- `renew` of kernel/src/authority_store.rs.
use clinx.Prelude.{
  String, Bool, true, not, ◌||◌, Option, none, some, [], ◌∷◌, ◌==◌, any, if◌then◌else◌,
}
use clinx.Prelude.Int.{ℤ, leb_ℤ, eqb_option}
use clinx.Prelude.Results.{ok, err, ◌>>=◌, ensure}
use clinx.Json.{Json, string, object, fields_of}
use clinx.External.{External}
use clinx.ExecutionCore.Evidence.{keys}
use clinx.ExecutionCore.Canonical.{digest}
use clinx.Authority.Tables.{
  Stored, Lease, Renewal, Tables, is_active, epoch_of, at_key, find_lease, update_lease,
  renewal_key, find_renewal, has_commit, int_json, ends_at, text_member, int_member, lease_length,
}
use clinx.Authority.Leases.{Moment}

abbrev pub extended : ℤ → Lease → Lease
extended expires l = record {
  resource = l.resource;
  epoch = l.epoch;
  claim_id = l.claim_id;
  request_hash = l.request_hash;
  owner = l.owner;
  capability = l.capability;
  boot = l.boot;
  expires_ms = expires;
  claim_expires_ms = l.claim_expires_ms;
  state = l.state;
}

abbrev pub later : ℤ → ℤ → ℤ
later a b = if leb_ℤ a b then b else a

-- Whether a lease may still act: its token, its boot, its time, its state, its epoch.
abbrev pub is_fenced : Moment → Lease → Option ℤ → String → Bool
is_fenced o l current capability =
    not (l.capability == capability)
    || (not (l.boot == o.boot)
        || (leb_ℤ l.expires_ms o.now
            || (not (is_active l.state) || not (eqb_option current (some l.epoch)))))

-- A renewal, checked before the transaction.
pub record Extension : Type 0 where
  pub resource : String
  pub epoch : ℤ
  pub operation_id : String
  pub duration : ℤ

unfoldable pub checked_renewal : Json → Stored Extension
unfolding text_member
checked_renewal p = do
  _ ←
      ensure (keys p ("resource" ∷ "epoch" ∷ "capability" ∷ "operation_id" ∷ "lease_ms" ∷ []))
        "INVALID_RENEWAL"
  r ← text_member p "resource"
  e ← int_member p "epoch" (λ _. true) "INVALID_EPOCH"
  op ← text_member p "operation_id"
  duration ← int_member p "lease_ms" lease_length "INVALID_LEASE"
  ok (record { resource = r; epoch = e; operation_id = op; duration = duration })

abbrev pub committed : String → Json → Json
committed verdict receipt =
    object (fields_of (("receipt", receipt) ∷ ("verdict", string verdict) ∷ []))

module _ (w : External) where
  -- `core::digest(&json!({…}))` of a renewal.
  unfoldable pub renewal_hash : Extension → String
  renewal_hash x = digest w (
      object (
        fields_of (
          ("epoch", int_json x.epoch)
          ∷ ("lease_ms", int_json x.duration)
          ∷ ("operation_id", string x.operation_id)
          ∷ ("resource", string x.resource)
          ∷ [])))

  abbrev pub receipt : Moment → Lease → Extension → Json
  receipt o l x = object (
      fields_of (
        ("authority_id", string o.identity)
        ∷ ("boot", string l.boot)
        ∷ ("epoch", int_json x.epoch)
        ∷ ("expires_ms", int_json (later l.expires_ms (ends_at o.now x.duration)))
        ∷ ("operation", string "renew")
        ∷ ("operation_id", string x.operation_id)
        ∷ ("request_hash", string (renewal_hash x))
        ∷ ("resource", string x.resource)
        ∷ ("trusted_ms", int_json o.now)
        ∷ []))

  -- The rows that a renewal writes.
  abbrev pub renewed : Moment → Lease → Extension → Tables → Tables
  renewed o l x t = record {
    resources = t.resources;
    leases =
        update_lease x.resource x.epoch (extended (later l.expires_ms (ends_at o.now x.duration)))
          t.leases;
    renewals =
        record {
          resource = x.resource;
          epoch = x.epoch;
          operation_id = x.operation_id;
          request_hash = renewal_hash x;
          receipt = receipt o l x;
        }
        ∷ t.renewals;
    commits = t.commits;
    outbox = (digest w (receipt o l x), receipt o l x) ∷ t.outbox;
  }

  abbrev pub is_posted : Moment → Lease → Extension → Tables → Bool
  is_posted o l x t = any (λ row. row.0 == digest w (receipt o l x)) t.outbox

  -- The id of a row of `outbox` is a primary key.
  unfoldable pub renew_new : Moment → Lease → Extension → Tables → Stored (Tables × Json)
  unfolding update_lease renewal_hash
  renew_new o l x t = do
    _ ← ensure (not (is_posted o l x t)) "STORAGE_ERROR"
    ok (renewed o l x t, committed "COMMITTED" (receipt o l x))

  abbrev pub renew_again : Extension → Renewal → Tables → Stored (Tables × Json)
  renew_again x n t =
      if n.request_hash == renewal_hash x
      then ok (t, committed "DUPLICATE" n.receipt)
      else err "OPERATION_ID_CONFLICT"

  unfoldable pub renew_admitted : Moment → Lease → Extension → Tables → Stored (Tables × Json)
  unfolding renew_new
  renew_admitted o l x t =
      elim (find_renewal (renewal_key x.resource x.epoch x.operation_id) t.renewals) [
        | some n ↦ renew_again x n t
        | none ↦ renew_new o l x t
      ]

  -- A renewal of the lease.
  unfoldable pub renew_lease : Moment → Json → Extension → Lease → Tables → Stored (Tables × Json)
  unfolding renew_admitted text_member
  renew_lease o p x l t = do
    capability ← text_member p "capability"
    _ ← ensure (not (is_fenced o l (epoch_of x.resource t.resources) capability)) "FENCED"
    _ ←
        ensure (not (has_commit x.resource x.epoch x.operation_id t.commits))
          "OPERATION_ID_CONFLICT"
    renew_admitted o l x t

  abbrev pub renew_found :
      Moment → Json → Extension → Option Lease → Tables → Stored (Tables × Json)
  renew_found o p x none t = err "FENCED"
  renew_found o p x (some l) t = renew_lease o p x l t

  unfoldable pub renew : Moment → Json → Tables → Stored (Tables × Json)
  unfolding checked_renewal renew_lease
  renew o p t = do
    x ← checked_renewal p
    renew_found o p x (find_lease (at_key x.resource x.epoch) t.leases) t
