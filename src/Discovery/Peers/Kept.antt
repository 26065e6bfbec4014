-- ===== src/Discovery/Peers/Kept.antt =====
-- How two rows, and two stores of peers, of kernel/src/discovery_state.rs are related where nothing that
-- matters for trust was undone.
use clinx.Prelude.{
  String, ◌≡◌, refl, ap, sym, ◌∙◌, inl, inr, true, false, ◌&&◌, some, arith, ◌==◌, eq_iff,
  Bool-cases,
}
use clinx.Prelude.Results.{ok}
use clinx.Json.{Json, string, Fields, end}
use clinx.Json.Access.{lookup, insert, ◌!◌, lookup-insert, !-lookup, is_text, is_text_iff}
use clinx.Json.Write.{set_member, set_member-ne}
use clinx.Discovery.Peers.{status_known, row, Trusting}

-- The row `p` has become the row `q`: under the same key, revoked if it was revoked, and not less
-- secure.
pub record IsKept (p q : Json) : Type 0 where
  pub key : q ! "public_key" ≡ p ! "public_key"
  pub stays_revoked : p ! "trust_state" ≡ string "REVOKED" → q ! "trust_state" ≡ string "REVOKED"
  pub stays_secure :
      p ! "security_status" ≡ string "OPAQUE_V1" → q ! "security_status" ≡ string "OPAQUE_V1"

-- No row is lost.
pub IsPreserved : Fields → Fields → Type 0
IsPreserved old new =
    (id : String) (p : Json)
    → lookup id old ≡ some p
    → (q : Json) × (lookup id new ≡ some q) × IsKept p q

pub IsKept-refl : (p : Json) → IsKept p p
IsKept-refl p = record { key = refl; stays_revoked = λ h. h; stays_secure = λ h. h }

-- Writing one row that keeps what was there.
pub insert-IsPreserved :
    (id : String) (q : Json) (rows : Fields)
    → ((p : Json) → lookup id rows ≡ some p → IsKept p q)
    → IsPreserved rows (insert id q rows)
unfolding IsPreserved
insert-IsPreserved id q rows kept j p found = elim (Bool-cases (id == j)) [
  | inl same ↦
      let here = ap (λ k. lookup k rows) ((eq_iff id j).0 same) ∙ found in
      (q, ground (arith, lookup-insert id j q rows), kept p here)
  | inr other ↦ (p, ground (arith, lookup-insert id j q rows), IsKept-refl p)
]

pub row-lookup :
    (rows : Fields) (id : String) (p : Json) → lookup id rows ≡ some p → row rows id ≡ p
row-lookup rows id p found = !-lookup rows id p found

-- Two members written, neither of which is one that `IsKept` is about.
pub set_member-IsKept :
    (k j : String) (u v p q r : Json)
    → set_member k u p ≡ ok q
    → set_member j v q ≡ ok r
    → (k == "public_key") ≡ false
    → (j == "public_key") ≡ false
    → (k == "security_status") ≡ false
    → (j == "security_status") ≡ false
    → (j == "trust_state") ≡ false
    → (p ! "trust_state" ≡ string "REVOKED" → q ! "trust_state" ≡ string "REVOKED")
    → IsKept p r
set_member-IsKept k j u v p q r first second a b c d e revoked = record {
  key = set_member-ne j "public_key" v q r b second ∙ set_member-ne k "public_key" u p q a first;
  stays_revoked = λ h. set_member-ne j "trust_state" v q r e second ∙ revoked h;
  stays_secure = λ h.
      set_member-ne j "security_status" v q r d second
      ∙ (set_member-ne k "security_status" u p q c first ∙ h);
}

pub pair-injective :
    {rows new : Fields} {u v : Json}
    → ◌≡◌ {A = Trusting (Fields × Json)} (ok (rows, u)) (ok (new, v))
    → rows ≡ new
pair-injective h = cc

pub not_revoked :
    {A : Type 0} (p : Json)
    → p ! "trust_state" ≡ string "REVOKED"
    → is_text (p ! "trust_state") "REVOKED" ≡ false
    → A
unfolding is_text
not_revoked p h live = absurd (ground (arith, sym (ap (λ x. is_text x "REVOKED") h) ∙ live))

pub still_secure :
    (old status : Json)
    → old ≡ string "OPAQUE_V1"
    → (is_text old "OPAQUE_V1" && is_text status "DEV_ONLY") ≡ false
    → status_known status ≡ true
    → status ≡ string "OPAQUE_V1"
unfolding is_text
still_secure old status h secure known =
    is_text_iff status "OPAQUE_V1" (ground (arith, ap (λ x. is_text x "OPAQUE_V1") h))

pub empty_store :
    {rows : Fields} {p : Json} (id : String) → end ≡ rows → lookup id rows ≡ some p → ⊥
unfolding lookup
empty_store {rows} {p} id same found = ground (arith, ap (lookup id) same)
