-- ===== src/Authority/Leases/Grants.antt =====
-- What the operations of kernel/src/authority_store.rs do to the leases that are active.
use clinx.Prelude.{
  ◌≤◌, String, Bool, true, false, not, ◌&&◌, some, List, [], ◌∷◌, ◌==◌, ◌≡◌, refl, sym, ap, ◌∙◌,
  subst, inl, inr, arith, eq_iff, eq_refl, All, Bool-cases, Option-cases, is_some, if◌then◌else◌,
}
use clinx.Prelude.Int.{ℤ, pos, eqb_ℤ_iff, ◌+ℤ◌}
use clinx.Prelude.Results.{ok, >>=-eq-ok, ensure, ok-injective}
use clinx.Json.{Json}
use clinx.External.{External}
use clinx.Authority.Tables.{
  Lease, Tables, is_active, epoch_of, put_epoch, at_key, find_lease, update_lease, insert_lease,
  ends_at, Stored,
}
use clinx.Authority.Leases.{
  Claim, Moment, prior_released, new_lease, claim_new, set_released, release, is_next, drawn_token,
  lease_json, claimed,
}
use clinx.Authority.Renewals.{
  receipt, Extension, extended, later, renewed, is_posted, committed, receipt, renew_new,
}
use clinx.Authority.Leases.Exclusive.{
  IsCurrent, rows_at, active_count, IsExclusive, key_of_current, active_count-zero, epoch_of-put,
  find_lease-none, inactive_at,
}

-- A change of a row that keeps its key and activates nothing.
record IsMild (f : Lease → Lease) : Type 0 where
  resource : (l : Lease) → (f l).resource ≡ l.resource
  epoch : (l : Lease) → (f l).epoch ≡ l.epoch
  idle : (l : Lease) → is_active (f l).state ≡ true → is_active l.state ≡ true

update-rows_at :
    (f : Lease → Lease)
    → IsMild f
    → (r k : String) (e d : ℤ) (ls : List Lease)
    → rows_at k d (update_lease r e f ls) ≡ rows_at k d ls
unfolding update_lease rows_at
update-rows_at f mild r k e d [] = refl
update-rows_at f mild r k e d (l ∷ ls) =
    ground (arith, mild.resource l, mild.epoch l, update-rows_at f mild r k e d ls)

mild-IsCurrent :
    (epochs : List (String × ℤ)) (f : Lease → Lease) (l : Lease)
    → IsMild f
    → IsCurrent epochs l
    → IsCurrent epochs (f l)
mild-IsCurrent epochs f l mild current now =
    ap (λ s. epoch_of s epochs) (mild.resource l)
    ∙ current (mild.idle l now)
    ∙ ap some (sym (mild.epoch l))

All-if :
    {A : Type 0} (P : A → Type 0) (b : Bool) (xs ys : List A)
    → All P xs
    → All P ys
    → All P (if b then xs else ys)
All-if P true xs ys h k = h
All-if P false xs ys h k = k

update-IsCurrent :
    (epochs : List (String × ℤ)) (f : Lease → Lease)
    → IsMild f
    → (r : String) (e : ℤ) (ls : List Lease) → All (IsCurrent epochs) ls
    → All (IsCurrent epochs) (update_lease r e f ls)
unfolding update_lease
update-IsCurrent epochs f mild r e [] h = tt
update-IsCurrent epochs f mild r e (l ∷ ls) (current, currents) =
    All-if (IsCurrent epochs) (at_key r e l) (f l ∷ ls) (l ∷ update_lease r e f ls)
      (mild-IsCurrent epochs f l mild current, currents)
      (current, update-IsCurrent epochs f mild r e ls currents)

set_released-IsMild : IsMild set_released
set_released-IsMild = record { resource = λ l. refl; epoch = λ l. refl; idle = λ l h. cc }

extended-IsMild : (n : ℤ) → IsMild (extended n)
extended-IsMild n = record { resource = λ l. refl; epoch = λ l. refl; idle = λ l h. h }

pub release-IsExclusive :
    (r : String) (e : ℤ) (t : Tables) → IsExclusive t → IsExclusive (release r e t)
unfolding release
release-IsExclusive r e t x = record {
  current = update-IsCurrent t.resources set_released set_released-IsMild r e t.leases x.current;
  keyed = λ k d.
      subst (λ n. n ≤ 1) (sym (update-rows_at set_released set_released-IsMild r k e d t.leases))
        (x.keyed k d);
}

pub tables_of :
    {t u : Tables} (v x : Json) → ◌≡◌ {A = Stored (Tables × Json)} (ok (t, v)) (ok (u, x)) → t ≡ u
tables_of v x h = ap (λ p. p.0) (ok-injective {E = String} h)

module _ (w : External) where
  renewed-IsExclusive :
      (o : Moment) (l : Lease) (x : Extension) (t : Tables)
      → IsExclusive t
      → IsExclusive (renewed w o l x t)
  renewed-IsExclusive o l x t g =
      let mild = extended-IsMild (later l.expires_ms (ends_at o.now x.duration)) in
      record {
        current = update-IsCurrent t.resources _ mild x.resource x.epoch t.leases g.current;
        keyed = λ k d.
            subst (λ n. n ≤ 1) (sym (update-rows_at _ mild x.resource k x.epoch d t.leases))
              (g.keyed k d);
      }

  pub renew_new-IsExclusive :
      (o : Moment) (l : Lease) (x : Extension) (t u : Tables) (v : Json)
      → renew_new w o l x t ≡ ok (u, v)
      → IsExclusive t
      → IsExclusive u
  unfolding renew_new
  renew_new-IsExclusive o l x t u v h g =
      let (_, _, h₁) = >>=-eq-ok (ensure (not (is_posted w o l x t)) "STORAGE_ERROR") _ h in
      subst IsExclusive (tables_of (committed "COMMITTED" (receipt w o l x)) v h₁)
        (renewed-IsExclusive o l x t g)

-- The lease that a claim adds.
insert_lease-rows_at :
    (l : Lease) (ls ms : List Lease)
    → insert_lease l ls ≡ ok ms
    → (ms ≡ l ∷ ls) × (rows_at l.resource l.epoch ls ≡ 0)
unfolding insert_lease
insert_lease-rows_at l ls ms h =
    elim (Bool-cases (is_some (find_lease (at_key l.resource l.epoch) ls))) [
      | inl taken ↦ absurd (ground arith)
      | inr free ↦ (
        sym (ok-injective {E = String} (ground arith)),
        find_lease-none l.resource l.epoch ls free,
      )
    ]

keyed_cons :
    (l : Lease) (ls : List Lease)
    → rows_at l.resource l.epoch ls ≡ 0
    → ((r : String) (e : ℤ) → rows_at r e ls ≤ 1)
    → (r : String) (e : ℤ) → rows_at r e (l ∷ ls) ≤ 1
unfolding rows_at
keyed_cons l ls free keyed r e = elim (Bool-cases (at_key r e l)) [
  | inl here ↦
      let name = (eq_iff l.resource r).0 (ground arith) in
      let number = (eqb_ℤ_iff l.epoch e).0 (ground arith) in
      ground (
        arith,
        here,
        subst (λ k. rows_at k l.epoch ls ≡ 0) name free,
        ap (λ d. rows_at r d ls) number,
      )
  | inr other ↦ ground (arith, other, keyed r e)
]

-- After the resource's epoch has moved on, the other leases are current still.
moved_current :
    (epochs : List (String × ℤ)) (r : String) (e : ℤ) (ls : List Lease)
    → All (IsCurrent epochs) ls
    → active_count r ls ≡ 0
    → All (IsCurrent (put_epoch r e epochs)) ls
unfolding active_count
moved_current epochs r e [] h idle = tt
moved_current epochs r e (l ∷ ls) (current, currents) idle = (
  (λ now.
      ground
        (arith, epoch_of-put r l.resource e epochs, current now, eq_iff r l.resource, eq_refl r)),
  moved_current epochs r e ls currents (ground arith),
)

idle_count :
    (epochs : List (String × ℤ)) (r : String) (e : ℤ) (ls : List Lease)
    → All (IsCurrent epochs) ls
    → epoch_of r epochs ≡ some e
    → All (λ l. at_key r e l ≡ true → is_active l.state ≡ false) ls
    → active_count r ls ≡ 0
unfolding active_count
idle_count epochs r e [] h its quiet = refl
idle_count epochs r e (l ∷ ls) (current, currents) its (idle, idles) =
    elim (Bool-cases (l.resource == r && is_active l.state)) [
      | inl holds ↦
          absurd (ground (arith, holds, idle (key_of_current epochs r e l current its holds)))
      | inr other ↦ ground (arith, other, idle_count epochs r e ls currents its idles)
    ]

-- A claim that passes the prior lease finds no active one.
prior_released-active_count :
    (t : Tables) (r : String)
    → IsExclusive t
    → prior_released t r (epoch_of r t.resources) ≡ ok tt
    → active_count r t.leases ≡ 0
unfolding prior_released
prior_released-active_count t r g h = elim (Option-cases (epoch_of r t.resources)) [
  | inl absent ↦ active_count-zero t.resources r t.leases g.current absent
  | inr (e, its) ↦
      let passed = subst (λ o. prior_released t r o ≡ ok tt) its h in
      elim (Option-cases (find_lease (at_key r e) t.leases)) [
        | inl missing ↦ absurd (ground arith)
        | inr (l, found) ↦
            idle_count t.resources r e t.leases g.current its
              (inactive_at r e t.leases l found (ground arith) (g.keyed r e))
      ]
]

claimed-IsExclusive :
    (o : Moment) (c : Claim) (capability : String) (t : Tables) (ms : List Lease)
    → IsExclusive t
    → active_count c.resource t.leases ≡ 0
    → insert_lease (new_lease o c capability) t.leases ≡ ok ms
    → IsExclusive (claimed c ms t)
claimed-IsExclusive o c capability t ms g idle h =
    let e = ◌+ℤ◌ c.expected (pos 1) in
    let (same, free) = insert_lease-rows_at (new_lease o c capability) t.leases ms h in
    subst (λ ls. IsExclusive (claimed c ls t)) (sym same)
      (record {
        current = (
          (λ _.
              epoch_of-put c.resource c.resource e t.resources
              ∙ ground (arith, eq_refl c.resource)),
          moved_current t.resources c.resource e t.leases g.current idle,
        );
        keyed = keyed_cons (new_lease o c capability) t.leases free g.keyed;
      })

pub claim_new-IsExclusive :
    (o : Moment) (c : Claim) (t u : Tables) (v : Json)
    → claim_new o c t ≡ ok (u, v)
    → IsExclusive t
    → IsExclusive u
unfolding claim_new
claim_new-IsExclusive o c t u v h g =
    let (_, _, h₁) = >>=-eq-ok (ensure (is_next c t) "EPOCH_CAS_CONFLICT") _ h in
    let (_, prior, h₂) =
      >>=-eq-ok (prior_released t c.resource (epoch_of c.resource t.resources)) _ h₁ in
    let (capability, _, h₃) = >>=-eq-ok (drawn_token o) _ h₂ in
    let (ms, added, h₄) = >>=-eq-ok (insert_lease (new_lease o c capability) t.leases) _ h₃ in
    subst IsExclusive
      (tables_of
        (lease_json "APPLY" c.resource (◌+ℤ◌ c.expected (pos 1)) capability
          (ends_at o.now c.duration))
        v h₄)
      (claimed-IsExclusive o c capability t ms g (prior_released-active_count t c.resource g prior)
        added)
