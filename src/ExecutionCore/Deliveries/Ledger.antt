-- ===== src/ExecutionCore/Deliveries/Ledger.antt =====
-- What the guard "deliveries" has established of the ledger.
use clinx.Prelude.{
  String, ◌≡◌, refl, ◌⊎◌, inl, inr, true, false, some, List, [], ◌∷◌, map, All, arith, eq_iff,
  eq_refl, contains, Option-cases,
}
use clinx.Json.{Json}
use clinx.Json.Access.{◌!◌, as_array, is_true, is_object}
use clinx.External.{External}
use clinx.ExecutionCore.{apply}
use clinx.ExecutionCore.Guards.{guard_binding}
use clinx.ExecutionCore.Deliveries.{
  run_names, agree, reconciled, delivered, fresh_call, check_row, check_rows, delivery_outcome,
  guard_deliveries,
}

-- No text stands twice.
abbrev pub Distinct : List String → Type 0
Distinct [] = Unit
Distinct (x ∷ xs) = (contains xs x ≡ false) × Distinct xs

module _ (w : External) where
  -- The call that a row is about, as it is compared.
  abbrev pub call_of : Json → String
  call_of r = w.print (r ! "call_id")

  -- A row of the bound run, whose delivery is closed one way or the other.
  pub record IsSettled (f target r : Json) : Type 0 where
    pub row : is_object r ≡ true
    pub of_run : agree w run_names r (f ! "binding") ≡ true
    pub closed : (delivered w r ≡ true) ⊎ (reconciled w r (delivery_outcome f target) ≡ true)

  pub record IsLedger (f target : Json) (rows : List Json) : Type 0 where
    pub listed : as_array (f ! "deliveries") ≡ some rows
    pub complete : is_true (f ! "delivery_ledger_complete") ≡ true
    pub bound : guard_binding f ≡ apply
    pub distinct : Distinct (map call_of rows)
    pub settled : All (IsSettled f target) rows

  module _ (f target : Json) where
    fresh_call_parts :
        (seen : List String) (r : Json)
        → fresh_call w seen r ≡ true
        → (contains seen (call_of r) ≡ false) × (is_object r ≡ true)
    unfolding fresh_call
    fresh_call_parts seen r h = (ground arith, ground arith)

    check_row_parts :
        (seen : List String) (r : Json)
        → check_row w f target seen r ≡ apply
        → (contains seen (call_of r) ≡ false) × IsSettled f target r
    unfolding check_row
    check_row_parts seen r h =
        let (new, row) = fresh_call_parts seen r (ground arith) in
        (new, record { row = row; of_run = ground arith; closed = ground arith })

    unseen :
        (seen : List String) (rs : List Json) (s : String)
        → check_rows w f target seen rs ≡ apply
        → contains seen s ≡ true
        → contains (map call_of rs) s ≡ false
    unfolding check_rows
    unseen seen [] s h c = refl
    unseen seen (r ∷ rs) s h c =
        let (new, _) = check_row_parts seen r (ground arith) in
        ground (arith, eq_iff (call_of r) s, unseen (call_of r ∷ seen) rs s (ground arith))

    check_rows-Distinct :
        (seen : List String) (rs : List Json)
        → check_rows w f target seen rs ≡ apply
        → Distinct (map call_of rs) × All (IsSettled f target) rs
    unfolding check_rows
    check_rows-Distinct seen [] h = (tt, tt)
    check_rows-Distinct seen (r ∷ rs) h =
        let (new, settled) = check_row_parts seen r (ground arith) in
        let (distinct, all) = check_rows-Distinct (call_of r ∷ seen) rs (ground arith) in
        (
          (
            unseen (call_of r ∷ seen) rs (call_of r) (ground arith)
                (ground (arith, eq_refl (call_of r))),
            distinct,
          ),
          (settled, all),
        )

    -- Where the guard "deliveries" applies, the ledger is complete, its binding is whole, no call
    -- stands in it twice, and every row is of the bound run and was delivered or reconciled.
    pub guard_deliveries-IsLedger :
        guard_deliveries w f target ≡ apply → (rows : List Json) × IsLedger f target rows
    unfolding guard_deliveries
    guard_deliveries-IsLedger h = elim (Option-cases (as_array (f ! "deliveries"))) [
      | inl missing ↦ absurd (ground arith)
      | inr (rows, listed) ↦
          let (distinct, settled) = check_rows-Distinct [] rows (ground arith) in
          (
            rows,
            record {
              listed = listed;
              complete = ground arith;
              bound = ground arith;
              distinct = distinct;
              settled = settled;
            },
          )
    ]
