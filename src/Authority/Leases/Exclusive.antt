-- ===== src/Authority/Leases/Exclusive.antt =====
-- Which leases of kernel/src/authority_store.rs are active, counted by their resources and epochs.
use clinx.Prelude.{
  ℕ, suc, ◌≤◌, String, Bool, true, false, ◌&&◌, Option, none, some, List, [], ◌∷◌, ◌==◌, ◌≡◌, refl,
  sym, ap, ◌∙◌, inl, inr, arith, eq_iff, eq_refl, All, Bool-cases, Option-cases, is_some,
  if◌then◌else◌,
}
use clinx.Prelude.Int.{ℤ, eqb_ℤ, eqb_ℤ_iff}
use clinx.Authority.Tables.{Lease, Tables, is_active, epoch_of, put_epoch, at_key, find_lease}

-- An active lease has the epoch of its resource.
abbrev pub IsCurrent : List (String × ℤ) → Lease → Type 0
IsCurrent epochs l = is_active l.state ≡ true → epoch_of l.resource epochs ≡ some l.epoch

unfoldable pub rows_at : String → ℤ → List Lease → ℕ
rows_at r e [] = 0
rows_at r e (l ∷ ls) = let rest = rows_at r e ls in if at_key r e l then suc rest else rest

unfoldable pub active_count : String → List Lease → ℕ
active_count r [] = 0
active_count r (l ∷ ls) =
    let rest = active_count r ls in if l.resource == r && is_active l.state then suc rest else rest

-- Only current leases are active, and no two leases have a resource and an epoch in common.
pub record IsExclusive (t : Tables) : Type 0 where
  pub current : All (IsCurrent t.resources) t.leases
  pub keyed : (r : String) (e : ℤ) → rows_at r e t.leases ≤ 1

pub some-injective : {A : Type 0} {a b : A} → ◌≡◌ {A = Option A} (some a) (some b) → a ≡ b
some-injective same = cc

pub eqb_ℤ_refl : (e : ℤ) → eqb_ℤ e e ≡ true
eqb_ℤ_refl e = (eqb_ℤ_iff e e).1 refl

pub key_of_current :
    (epochs : List (String × ℤ)) (r : String) (e : ℤ) (l : Lease)
    → IsCurrent epochs l
    → epoch_of r epochs ≡ some e
    → (l.resource == r && is_active l.state) ≡ true
    → at_key r e l ≡ true
key_of_current epochs r e l current its holds =
    let same = (eq_iff l.resource r).0 (ground arith) in
    let epoch = current (ground arith) in
    let one : some l.epoch ≡ some e = sym epoch ∙ ap (λ s. epoch_of s epochs) same ∙ its in
    ground (arith, holds, ap (λ z. eqb_ℤ z e) (some-injective one), eqb_ℤ_refl e)

active_count-le :
    (epochs : List (String × ℤ)) (r : String) (e : ℤ) (ls : List Lease)
    → All (IsCurrent epochs) ls
    → epoch_of r epochs ≡ some e
    → active_count r ls ≤ rows_at r e ls
unfolding active_count rows_at
active_count-le epochs r e [] currents its = omega arith
active_count-le epochs r e (l ∷ ls) (current, currents) its =
    elim (Bool-cases (l.resource == r && is_active l.state)) [
      | inl holds ↦ ground (
        arith,
        holds,
        key_of_current epochs r e l current its holds,
        active_count-le epochs r e ls currents its,
      )
      | inr other ↦ ground (arith, other, active_count-le epochs r e ls currents its)
    ]

pub active_count-zero :
    (epochs : List (String × ℤ)) (r : String) (ls : List Lease)
    → All (IsCurrent epochs) ls
    → epoch_of r epochs ≡ none
    → active_count r ls ≡ 0
unfolding active_count
active_count-zero epochs r [] currents its = refl
active_count-zero epochs r (l ∷ ls) (current, currents) its =
    elim (Bool-cases (l.resource == r && is_active l.state)) [
      | inl holds ↦
          let same = (eq_iff l.resource r).0 (ground arith) in
          absurd (ground (arith, current (ground arith), ap (λ s. epoch_of s epochs) same, its))
      | inr other ↦ ground (arith, other, active_count-zero epochs r ls currents its)
    ]

-- Of each resource at most one lease is active.
pub IsExclusive-active_count :
    (t : Tables) → IsExclusive t → (r : String) → active_count r t.leases ≤ 1
IsExclusive-active_count t x r = elim (Option-cases (epoch_of r t.resources)) [
  | inl absent ↦ ground (arith, active_count-zero t.resources r t.leases x.current absent)
  | inr (e, its) ↦
      ground (arith, active_count-le t.resources r e t.leases x.current its, x.keyed r e)
]

pub epoch_of-put :
    (r k : String) (e : ℤ) (rows : List (String × ℤ))
    → epoch_of k (put_epoch r e rows) ≡ (if r == k then some e else epoch_of k rows)
epoch_of-put r k e [] = ground arith
epoch_of-put r k e ((s, d) ∷ rows) = elim (Bool-cases (s == r)) [
  | inl same ↦ ground (arith, (eq_iff s r).0 same, eq_refl s)
  | inr other ↦ elim (Bool-cases (s == k)) [
    | inl here ↦ ground (arith, other, here, (eq_iff s k).0 here, eq_iff r k)
    | inr there ↦ ground (arith, other, there, epoch_of-put r k e rows)
  ]
]

pub find_lease-none :
    (r : String) (e : ℤ) (ls : List Lease)
    → is_some (find_lease (at_key r e) ls) ≡ false
    → rows_at r e ls ≡ 0
unfolding find_lease rows_at
find_lease-none r e [] h = refl
find_lease-none r e (l ∷ ls) h = elim (Bool-cases (at_key r e l)) [
  | inl here ↦ ground (arith, here, h)
  | inr other ↦ ground (arith, other, h, find_lease-none r e ls (ground arith))
]

pub rows_at-zero :
    (r : String) (e : ℤ) (ls : List Lease)
    → rows_at r e ls ≡ 0
    → All (λ l. at_key r e l ≡ true → is_active l.state ≡ false) ls
unfolding rows_at
rows_at-zero r e [] h = tt
rows_at-zero r e (l ∷ ls) h = ((λ here. ground arith), rows_at-zero r e ls (ground arith))

head_found :
    (l p : Lease) (b : Bool) (rest : Option Lease)
    → b ≡ true
    → (if b then some l else rest) ≡ some p
    → some l ≡ some p
head_found l p true rest here found = found
head_found l p false rest here found = cc

-- Where the row with a key is not active, no other row with it is.
pub inactive_at :
    (r : String) (e : ℤ) (ls : List Lease) (p : Lease)
    → find_lease (at_key r e) ls ≡ some p
    → is_active p.state ≡ false
    → rows_at r e ls ≤ 1
    → All (λ l. at_key r e l ≡ true → is_active l.state ≡ false) ls
unfolding find_lease rows_at
inactive_at r e [] p found idle one = tt
inactive_at r e (l ∷ ls) p found idle one = elim (Bool-cases (at_key r e l)) [
  | inl here ↦ (
    (λ _.
        ap (λ x. is_active x.state) (some-injective (head_found l p (at_key r e l) _ here found))
        ∙ idle),
    rows_at-zero r e ls (ground arith),
  )
  | inr other ↦
      ((λ here. absurd (ground arith)), inactive_at r e ls p (ground arith) idle (ground arith))
]
