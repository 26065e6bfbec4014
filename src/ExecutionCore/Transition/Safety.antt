-- ===== src/ExecutionCore/Transition/Safety.antt =====
-- What the guards of the contract's table keep from happening.
use clinx.Prelude.{
  String, ◌≡◌, refl, sym, ◌∙◌, subst, ◌⊎◌, inl, inr, Bool, true, false, not, ◌||◌, some, List, [],
  ◌∷◌, Memᴰ, All-mem, all→All, arith, ◌==◌, eq_iff, all, contains, Bool-cases,
}
use clinx.Json.{Json, string}
use clinx.Json.Access.{◌!◌, as_str}
use clinx.External.{External}
use clinx.ExecutionCore.{apply}
use clinx.ExecutionCore.Contract.{Edge, ObjectContract, contract_object}
use clinx.ExecutionCore.Guards.{guard_stopped}
use clinx.ExecutionCore.Deliveries.{guard, guard_finalizer}
use clinx.ExecutionCore.Deliveries.Outcomes.{IsFinal, guard_finalizer-IsFinal}
use clinx.ExecutionCore.Transition.{transition}
use clinx.ExecutionCore.Transition.Applied.{
  AllApply, transition-IsApplied, requested_edge-IsRequested,
}

string-injective : {s t : String} → string s ≡ string t → s ≡ t
string-injective h = cc

or_true : (a b : Bool) → (not a || b) ≡ true → a ≡ true → b ≡ true
or_true a b h k = ground arith

-- The states of an execution that end it.
abbrev pub is_outcome : String → Bool
is_outcome s = s == "SUCCEEDED" || (s == "BLOCKED" || (s == "FAILED" || s == "CANCELLED"))

finalized_edge : Edge → Bool
finalized_edge e = not (is_outcome e.to) || contains e.guards "finalizer"

asks_finalizer :
    (e : Edge) (t : String)
    → finalized_edge e ≡ true
    → e.to ≡ t
    → is_outcome t ≡ true
    → contains e.guards "finalizer" ≡ true
unfolding finalized_edge
asks_finalizer e t passes same ended =
    let here : is_outcome e.to ≡ true = rw same ended in or_true _ _ passes here

-- The states of an allocation that give its resource back.
abbrev pub is_release : String → Bool
is_release s = s == "RELEASE_PENDING" || s == "RELEASED"

stopped_edge : Edge → Bool
stopped_edge e =
    not (is_release e.to) || (contains e.guards "stopped" || contains e.guards "release")

asks_stopped :
    (e : Edge) (t : String)
    → stopped_edge e ≡ true
    → e.to ≡ t
    → is_release t ≡ true
    → (contains e.guards "stopped" ≡ true) ⊎ (contains e.guards "release" ≡ true)
unfolding stopped_edge
asks_stopped e t passes same freed =
    let here : is_release e.to ≡ true = rw same freed in either _ _ (or_true _ _ passes here)
  where
    either : (a b : Bool) → (a || b) ≡ true → (a ≡ true) ⊎ (b ≡ true)
    either a b h = ground arith

module _ (w : External) where
  AllApply-contains :
      (gs : List String) (f target : Json) (g : String)
      → AllApply w gs f target
      → contains gs g ≡ true
      → guard w g f target ≡ apply
  AllApply-contains [] f target g h c = absurd (ground arith)
  AllApply-contains (x ∷ gs) f target g h c = elim (Bool-cases (x == g)) [
    | inl same ↦ subst (λ n. guard w n f target ≡ apply) ((eq_iff x g).0 same) h.0
    | inr other ↦ AllApply-contains gs f target g h.1 (ground arith)
  ]

  -- A test that every edge of the object's table passes holds for an applied request's edge.
  applied_edge :
      (r : Json) (s : String) (o : ObjectContract) (p : Edge → Bool)
      → as_str (r ! "object") ≡ some s
      → contract_object s ≡ some o
      → all p o.transitions ≡ true
      → transition w r ≡ apply
      → (e : Edge) × (p e ≡ true)
        × (r ! "from" ≡ string e.from)
        × (r ! "to" ≡ string e.to)
        × AllApply w e.guards (r ! "facts") (r ! "to")
  applied_edge r s o p named found passes h =
      let a = transition-IsApplied w r h in
      let q = requested_edge-IsRequested r a.edge a.requested in
      let same : q.contract ≡ o = ground (arith, q.named) in
      let listed : Memᴰ a.edge o.transitions =
        subst (λ c. Memᴰ a.edge c.transitions) same q.listed in
      (
        a.edge,
        All-mem (λ e. p e ≡ true) o.transitions (all→All p o.transitions passes) listed,
        q.fits.from,
        q.fits.to,
        a.guards,
      )

  guard-finalizer :
      (f target : Json) → guard w "finalizer" f target ≡ guard_finalizer w false f target
  unfolding guard
  guard-finalizer f target = refl

  guard-release : (f target : Json) → guard w "release" f target ≡ guard_finalizer w true f target
  unfolding guard
  guard-release f target = refl

  guard-stopped : (f target : Json) → guard w "stopped" f target ≡ guard_stopped f
  unfolding guard
  guard-stopped f target = refl

  -- An applied transition of an Execution into a terminal outcome has the evidence of a final
  -- result: the provider was seen to end or nothing was dispatched, the ledger of deliveries is
  -- settled, the result is the run's and has that outcome, success only of a provider that ended,
  -- cancellation only on request, and the whole commit bundle is there.
  pub execution_outcome :
      (r : Json) (t : String)
      → as_str (r ! "object") ≡ some "Execution"
      → r ! "to" ≡ string t
      → is_outcome t ≡ true
      → transition w r ≡ apply
      → IsFinal w false (r ! "facts") (r ! "to")
  unfolding contract_object finalized_edge
  execution_outcome r t named to ended h =
      let (e, passes, _, to', guards) =
        applied_edge r "Execution" _ finalized_edge named refl refl h in
      guard_finalizer-IsFinal w (r ! "facts") (r ! "to") false (
        sym (guard-finalizer _ _)
        ∙ AllApply-contains e.guards _ _ "finalizer" guards
            (asks_finalizer e t passes (string-injective (sym to' ∙ to)) ended))

  release-stopped : (f target : Json) → guard w "release" f target ≡ apply → guard_stopped f ≡ apply
  release-stopped f target h =
      ((guard_finalizer-IsFinal w f target true (sym (guard-release f target) ∙ h)).released refl).2

  -- No ResourceAllocation is released, or set to be released, by an applied transition without
  -- evidence that its old writer has stopped and its side effects are fenced.
  pub allocation_release :
      (r : Json) (t : String)
      → as_str (r ! "object") ≡ some "ResourceAllocation"
      → r ! "to" ≡ string t
      → is_release t ≡ true
      → transition w r ≡ apply
      → guard_stopped (r ! "facts") ≡ apply
  unfolding contract_object stopped_edge
  allocation_release r t named to freed h =
      let (e, passes, _, to', guards) =
        applied_edge r "ResourceAllocation" _ stopped_edge named refl refl h in
      elim (asks_stopped e t passes (string-injective (sym to' ∙ to)) freed) [
        | inl asked ↦
            sym (guard-stopped _ (r ! "to")) ∙ AllApply-contains e.guards _ _ "stopped" guards asked
        | inr asked ↦
            release-stopped _ (r ! "to") (AllApply-contains e.guards _ _ "release" guards asked)
      ]
