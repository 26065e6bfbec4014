-- ===== src/Authority/Leases/Holders.antt =====
-- Who holds a lease of kernel/src/authority_store.rs, over any sequence of operations.
use clinx.Prelude.{
  ◌≤◌, String, true, false, not, Option, none, some, ◌==◌, ◌≡◌, refl, sym, ap, ◌∙◌, subst, inl, inr,
  arith, eq_iff, Bool-cases, Option-cases,
}
use clinx.Prelude.Int.{ℤ, eqb_option-some, leb_ℤ}
use clinx.Prelude.Results.{ok, >>=-eq-ok, ensure, ensure-eq-ok}
use clinx.Json.{Json}
use clinx.External.{External}
use clinx.Authority.Tables.{
  Lease, LeaseState, active, released, Tables, no_rows, is_active, epoch_of, at_key, find_lease,
  find_renewal, renewal_key, has_commit, text_member,
}
use clinx.Authority.Leases.{Claim, Moment, claim_checked, claim, release, lease_json, checked_claim}
use clinx.Authority.Renewals.{
  Extension, renewal_hash, committed, renew_admitted, renew_found, is_fenced, renew_lease, renew,
  checked_renewal,
}
use clinx.Authority.Leases.Exclusive.{IsExclusive, active_count, rows_at, IsExclusive-active_count}
use clinx.Authority.Leases.Grants.{
  release-IsExclusive, renew_new-IsExclusive, claim_new-IsExclusive, tables_of,
}

claim_checked-IsExclusive :
    (o : Moment) (c : Claim) (t u : Tables) (v : Json)
    → claim_checked o c t ≡ ok (u, v)
    → IsExclusive t
    → IsExclusive u
unfolding claim_checked
claim_checked-IsExclusive o c t u v h g =
    elim (Option-cases (find_lease (λ l. l.claim_id == c.claim_id) t.leases)) [
      | inl fresh ↦ claim_new-IsExclusive o c t u v (ground arith) g
      | inr (l, found) ↦ elim (Bool-cases (l.request_hash == c.hash)) [
        | inl same ↦
            subst IsExclusive
              (tables_of (lease_json "DUPLICATE" c.resource l.epoch l.capability l.claim_expires_ms)
                v (ground arith))
              g
        | inr other ↦ absurd (ground arith)
      ]
    ]

-- What a renewal shows: the lease is held under the token, in this boot, now, and is current.
pub record IsHeld (o : Moment) (p : Json) (x : Extension) (l : Lease) (t : Tables) : Type 0 where
  pub token : text_member p "capability" ≡ ok l.capability
  pub boot : l.boot ≡ o.boot
  pub running : leb_ℤ l.expires_ms o.now ≡ false
  pub lives : l.state ≡ active
  pub current : epoch_of x.resource t.resources ≡ some l.epoch

is_active_iff : (s : LeaseState) → is_active s ≡ true → s ≡ active
is_active_iff active h = refl
is_active_iff released h = cc

fenced_false :
    (o : Moment) (l : Lease) (current : Option ℤ) (capability : String)
    → not (is_fenced o l current capability) ≡ true
    → (l.capability ≡ capability)
      × (l.boot ≡ o.boot)
      × (leb_ℤ l.expires_ms o.now ≡ false)
      × (l.state ≡ active)
      × (current ≡ some l.epoch)
fenced_false o l current capability h = (
  (eq_iff l.capability capability).0 (ground arith),
  (eq_iff l.boot o.boot).0 (ground arith),
  ground arith,
  is_active_iff l.state (ground arith),
  eqb_option-some current l.epoch (ground arith),
)

module _ (w : External) where
  renew_admitted-IsExclusive :
      (o : Moment) (l : Lease) (x : Extension) (t u : Tables) (v : Json)
      → renew_admitted w o l x t ≡ ok (u, v)
      → IsExclusive t
      → IsExclusive u
  unfolding renew_admitted
  renew_admitted-IsExclusive o l x t u v h g =
      elim (Option-cases
        (find_renewal (renewal_key x.resource x.epoch x.operation_id) t.renewals)) [
          | inl fresh ↦ renew_new-IsExclusive w o l x t u v (ground arith) g
          | inr (n, found) ↦ elim (Bool-cases (n.request_hash == renewal_hash w x)) [
            | inl same ↦
                subst IsExclusive (tables_of (committed "DUPLICATE" n.receipt) v (ground arith)) g
            | inr other ↦ absurd (ground arith)
          ]
        ]

  renew_lease-IsHeld :
      (o : Moment) (p : Json) (x : Extension) (l : Lease) (t u : Tables) (v : Json)
      → renew_lease w o p x l t ≡ ok (u, v)
      → IsHeld o p x l t × (renew_admitted w o l x t ≡ ok (u, v))
  unfolding renew_lease
  renew_lease-IsHeld o p x l t u v h =
      let (capability, its, h₁) = >>=-eq-ok (text_member p "capability") _ h in
      let (_, live, h₂) =
        >>=-eq-ok
          (ensure (not (is_fenced o l (epoch_of x.resource t.resources) capability)) "FENCED") _
          h₁ in
      let (_, _, h₃) =
        >>=-eq-ok
          (ensure (not (has_commit x.resource x.epoch x.operation_id t.commits))
            "OPERATION_ID_CONFLICT")
          _ h₂ in
      let (token, boot, running, lives, current) =
        fenced_false o l (epoch_of x.resource t.resources) capability (ensure-eq-ok _ _ live) in
      (
        record {
          token = its ∙ ap ok (sym token);
          boot = boot;
          running = running;
          lives = lives;
          current = current;
        },
        h₃,
      )

  renew_found-some :
      (o : Moment) (p : Json) (x : Extension) (m : Option Lease) (t u : Tables) (v : Json)
      → renew_found w o p x m t ≡ ok (u, v)
      → (l : Lease) × (m ≡ some l) × (renew_lease w o p x l t ≡ ok (u, v))
  renew_found-some o p x none t u v h = cc
  renew_found-some o p x (some l) t u v h = (l, refl, h)

  -- A renewal succeeds only for a lease that is found under its key, with the token of the lease,
  -- in the same boot, before its end, while it is active and has the epoch of its resource.
  pub renew-IsHeld :
      (o : Moment) (p : Json) (t u : Tables) (v : Json)
      → renew w o p t ≡ ok (u, v)
      → (x : Extension) × (l : Lease) × (checked_renewal p ≡ ok x)
        × (find_lease (at_key x.resource x.epoch) t.leases ≡ some l)
        × IsHeld o p x l t
        × (renew_admitted w o l x t ≡ ok (u, v))
  unfolding renew
  renew-IsHeld o p t u v h =
      let (x, its, h₁) = >>=-eq-ok (checked_renewal p) _ h in
      let (l, found, h₂) =
        renew_found-some o p x (find_lease (at_key x.resource x.epoch) t.leases) t u v h₁ in
      let (held, admitted) = renew_lease-IsHeld o p x l t u v h₂ in
      (x, l, its, found, held, admitted)

  -- The tables that claims, renewals and releases lead to from empty ones.
  pub data Reached : Tables → Type 0 where
    begins : Reached no_rows
    claims :
        {t : Tables} (o : Moment) (p : Json) (u : Tables) (v : Json)
        → Reached t
        → claim w o p t ≡ ok (u, v)
        → Reached u
    renews :
        {t : Tables} (o : Moment) (p : Json) (u : Tables) (v : Json)
        → Reached t
        → renew w o p t ≡ ok (u, v)
        → Reached u
    releases : {t : Tables} (r : String) (e : ℤ) → Reached t → Reached (release r e t)

  no_rows-IsExclusive : IsExclusive no_rows
  unfolding rows_at
  no_rows-IsExclusive = record { current = tt; keyed = λ r e. omega arith }

  claim-IsExclusive :
      (o : Moment) (p : Json) (t u : Tables) (v : Json)
      → claim w o p t ≡ ok (u, v)
      → IsExclusive t
      → IsExclusive u
  unfolding claim
  claim-IsExclusive o p t u v h g =
      let (c, _, h₁) = >>=-eq-ok (checked_claim w p) _ h in claim_checked-IsExclusive o c t u v h₁ g

  renew-IsExclusive :
      (o : Moment) (p : Json) (t u : Tables) (v : Json)
      → renew w o p t ≡ ok (u, v)
      → IsExclusive t
      → IsExclusive u
  renew-IsExclusive o p t u v h g =
      let (x, l, _, _, _, admitted) = renew-IsHeld o p t u v h in
      renew_admitted-IsExclusive o l x t u v admitted g

  Reached-IsExclusive : {t : Tables} → Reached t → IsExclusive t
  Reached-IsExclusive begins = no_rows-IsExclusive
  Reached-IsExclusive (claims {t} o p u v run h) =
      claim-IsExclusive o p t u v h (Reached-IsExclusive run)
  Reached-IsExclusive (renews {t} o p u v run h) =
      renew-IsExclusive o p t u v h (Reached-IsExclusive run)
  Reached-IsExclusive (releases {t} r e run) = release-IsExclusive r e t (Reached-IsExclusive run)

  -- Whatever is claimed, renewed and released, and in whatever order, at most one lease of a
  -- resource is active.
  pub one_holder : (t : Tables) → Reached t → (r : String) → active_count r t.leases ≤ 1
  one_holder t run r = IsExclusive-active_count t (Reached-IsExclusive run) r
