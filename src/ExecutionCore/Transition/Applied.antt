-- ===== src/ExecutionCore/Transition/Applied.antt =====
-- What an applied transition has established.
use clinx.Prelude.{
  sym, subst, ℕ, ◌+◌, ◌<◌, String, ◌≡◌, refl, true, false, Option, some, List, [], ◌∷◌, Memᴰ, All,
  arith, any, inl, inr, Bool-cases, Option-cases,
}
use clinx.Prelude.Int.{ℤ, pos, i64_max}
use clinx.Json.{Json, string}
use clinx.Json.Access.{◌!◌, as_str, as_i64, is_text_iff}
use clinx.External.{External}
use clinx.ExecutionCore.{apply, is_reject, is_hold, both}
use clinx.ExecutionCore.Contract.{Edge, ObjectContract, contract_object}
use clinx.ExecutionCore.Evidence.{text}
use clinx.ExecutionCore.Deliveries.{guard}
use clinx.ExecutionCore.Deliveries.Answers.{guard-ne-duplicate}
use clinx.ExecutionCore.Transition.{
  request_shaped, version_advances, edge_fits, fitting, only, requested_edge, facts_known,
  statuses_worst, binding_matches, run_guards, transition,
}

-- The request's counters: a version, and its successor.
abbrev pub Counts : Json → Type 0
Counts r =
    (v : ℕ) × (as_i64 (r ! "version") ≡ some (pos v))
    × (as_i64 (r ! "next_version") ≡ some (pos (v + 1)))
    × (v < i64_max)

pub record Fits (r : Json) (e : Edge) : Type 0 where
  pub from : r ! "from" ≡ string e.from
  pub to : r ! "to" ≡ string e.to
  pub action : r ! "action" ≡ string e.action
  pub actor : r ! "actor" ≡ string e.actor

Counts-from_parts :
    (a b : Option ℤ) (r : Json)
    → as_i64 (r ! "version") ≡ a
    → as_i64 (r ! "next_version") ≡ b
    → version_advances r ≡ true
    → Counts r
unfolding version_advances
Counts-from_parts (some (pos v)) (some (pos n)) r p q h = (v, p, ground arith, ground arith)
Counts-from_parts _ _ r p q h = absurd (ground arith)

version_advances-Counts : (r : Json) → version_advances r ≡ true → Counts r
version_advances-Counts r h = Counts-from_parts _ _ r refl refl h

version_advances-text : (r : Json) → version_advances r ≡ true → text (r ! "id") ≡ true
unfolding version_advances
version_advances-text r h =
    elim (Option-cases (both (as_i64 (r ! "version")) (as_i64 (r ! "next_version")))) [
      | inl missing ↦ absurd (ground arith)
      | inr (vs, found) ↦ ground arith
    ]

edge_fits-Fits : (r : Json) (e : Edge) → edge_fits r e ≡ true → Fits r e
unfolding edge_fits
edge_fits-Fits r e h = record {
  from = is_text_iff _ _ (ground arith);
  to = is_text_iff _ _ (ground arith);
  action = is_text_iff _ _ (ground arith);
  actor = is_text_iff _ _ (ground arith);
}

-- What `filter` keeps was listed, and fits.
fitting_kept :
    (r : Json) (x : Edge) (es kept : List Edge) (e : Edge)
    → Fits r x
    → (Memᴰ e kept → Memᴰ e es × Fits r e)
    → Memᴰ e (x ∷ kept)
    → Memᴰ e (x ∷ es) × Fits r e
fitting_kept r x es kept e fx rest (Memᴰ.head p) = (Memᴰ.head p, subst (Fits r) (sym p) fx)
fitting_kept r x es kept e fx rest (Memᴰ.tail m) = let (l, f) = rest m in (Memᴰ.tail l, f)

fitting-mem : (r : Json) (es : List Edge) (e : Edge) → Memᴰ e (fitting r es) → Memᴰ e es × Fits r e
unfolding fitting
fitting-mem r [] e m = elim m [ ]
fitting-mem r (x ∷ es) e m = elim (Bool-cases (edge_fits r x)) [
  | inl fits ↦
      fitting_kept r x es _ e (edge_fits-Fits r x fits) (fitting-mem r es e)
        (rw (fits, fitting) at m)
  | inr other ↦ let (l, f) = fitting-mem r es e (rw (other, fitting) at m) in (Memᴰ.tail l, f)
]

only-mem {ℓ} : {A : Type ℓ} (xs : List A) (x : A) → only xs ≡ some x → Memᴰ x xs
only-mem [] x h = absurd (ground arith)
only-mem (y ∷ []) x h = Memᴰ.head (ground arith)
only-mem (y ∷ z ∷ xs) x h = absurd (ground arith)

-- The edge is a listed one of the request's object, and fits the request.
pub record IsRequested (r : Json) (e : Edge) : Type 0 where
  pub name : String
  pub contract : ObjectContract
  pub named : as_str (r ! "object") ≡ some name
  pub found : contract_object name ≡ some contract
  pub listed : Memᴰ e contract.transitions
  pub fits : Fits r e

pub requested_edge-IsRequested : (r : Json) (e : Edge) → requested_edge r ≡ some e → IsRequested r e
unfolding requested_edge
requested_edge-IsRequested r e h = elim (Option-cases (as_str (r ! "object"))) [
  | inl missing ↦ absurd (ground arith)
  | inr (s, named) ↦ elim (Option-cases (contract_object s)) [
    | inl missing ↦ absurd (ground arith)
    | inr (o, found) ↦
        let kept = only-mem (fitting r o.transitions) e (ground arith) in
        let (l, f) = fitting-mem r o.transitions e kept in
        record { name = s; contract = o; named = named; found = found; listed = l; fits = f }
  ]
]

abbrev pub AllApply : External → List String → Json → Json → Type 0
AllApply w gs f target = All (λ g. guard w g f target ≡ apply) gs

any_reject-false :
    (w : External) (gs : List String) (f target : Json)
    → any is_reject (run_guards w gs f target) ≡ false
    → any is_hold (run_guards w gs f target) ≡ false
    → AllApply w gs f target
unfolding run_guards
any_reject-false w [] f target p q = tt
any_reject-false w (g ∷ gs) f target p q = (
  ground (arith, guard-ne-duplicate w g f target),
  any_reject-false w gs f target (ground arith) (ground arith),
)

-- Every check that stands in front of the guards, and the guards.
pub record IsApplied (w : External) (r : Json) : Type 0 where
  pub shaped : request_shaped r ≡ true
  pub identified : text (r ! "id") ≡ true
  pub counts : Counts r
  pub edge : Edge
  pub requested : requested_edge r ≡ some edge
  pub known_facts : facts_known (r ! "facts") ≡ true
  pub bound : binding_matches w r ≡ true
  pub guards : AllApply w edge.guards (r ! "facts") (r ! "to")

module _ (w : External) (r : Json) where
  statuses_worst-apply :
      (gs : List String) (f target : Json)
      → statuses_worst (run_guards w gs f target) ≡ apply
      → AllApply w gs f target
  statuses_worst-apply gs f target h = any_reject-false w gs f target (ground arith) (ground arith)

  -- Whenever a transition answers "APPLY", the request has the required members, a non-empty id, a
  -- version that advances by exactly one within 64 bits, exactly one fitting edge of the contract,
  -- only known facts, a binding that names the object, and every guard of the edge applies.
  pub transition-IsApplied : transition w r ≡ apply → IsApplied w r
  unfolding transition
  transition-IsApplied h = elim (Option-cases (requested_edge r)) [
    | inl missing ↦ absurd (ground arith)
    | inr (e, found) ↦ record {
      shaped = ground arith;
      identified = version_advances-text r (ground arith);
      counts = version_advances-Counts r (ground arith);
      edge = e;
      requested = found;
      known_facts = ground arith;
      bound = ground arith;
      guards = statuses_worst-apply e.guards (r ! "facts") (r ! "to") (ground arith);
    }
  ]
