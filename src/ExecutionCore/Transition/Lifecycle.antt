-- ===== src/ExecutionCore/Transition/Lifecycle.antt =====
-- The graph that the contract's table draws for each object, and its final states.
use clinx.Prelude.{
  all→All, Option-cases, subst, String, ◌≡◌, refl, Bool, true, false, some, List, [], ◌∷◌, Memᴰ,
  All-mem, arith, contains, all, not, ◌==◌, Bool-cases, inl, inr,
}
use clinx.Json.{Json, string}
use clinx.Json.Access.{◌!◌, as_str}
use clinx.External.{External}
use clinx.ExecutionCore.{reject}
use clinx.ExecutionCore.Contract.{Edge, ObjectContract, objects, find_object, contract_object}
use clinx.ExecutionCore.Transition.{requested_edge, transition}
use clinx.ExecutionCore.Transition.Applied.{requested_edge-IsRequested}

-- A state that edges of the object's table lead to.
pub data Reaches (o : ObjectContract) (s : String) : String → Type 0 where
  here : Reaches o s s
  step :
      {t : String} (e : Edge) → Reaches o s t → Memᴰ e o.transitions → e.from ≡ t → Reaches o s e.to

-- No edge of the object leaves a terminal state.
abbrev final : ObjectContract → Bool
final o = all (λ e. not (contains o.terminal e.from)) o.transitions

all-final : all final objects ≡ true
all-final = refl

find_object-mem :
    (s : String) (os : List ObjectContract) (o : ObjectContract)
    → find_object s os ≡ some o
    → Memᴰ o os
find_object-mem s [] o h = absurd (ground arith)
find_object-mem s (x ∷ os) o h = elim (Bool-cases (x.name == s)) [
  | inl found ↦ Memᴰ.head (ground arith)
  | inr other ↦ Memᴰ.tail (find_object-mem s os o (ground arith))
]

not_final :
    (o : ObjectContract) (e : Edge)
    → final o ≡ true
    → Memᴰ e o.transitions
    → contains o.terminal e.from ≡ false
not_final o e h m =
    let fact =
      All-mem (λ x. not (contains o.terminal x.from) ≡ true) o.transitions
        (all→All (λ x. not (contains o.terminal x.from)) o.transitions h) m in
    not_true _ fact
  where
    not_true : (b : Bool) → not b ≡ true → b ≡ false
    not_true b h = ground arith

-- No edge of an object of the contract leaves one of the object's terminal states.
pub contract-final :
    (s : String) (o : ObjectContract) (e : Edge)
    → contract_object s ≡ some o
    → Memᴰ e o.transitions
    → contains o.terminal e.from ≡ false
unfolding contract_object
contract-final s o e found m =
    not_final o e
      (All-mem (λ x. final x ≡ true) objects (all→All final objects all-final)
        (find_object-mem s objects o found))
      m

-- A request that starts in a terminal state of its object is rejected, whatever its evidence.
pub terminal_rejects :
    (w : External) (r : Json) (s t : String) (o : ObjectContract)
    → as_str (r ! "object") ≡ some s
    → contract_object s ≡ some o
    → r ! "from" ≡ string t
    → contains o.terminal t ≡ true
    → transition w r ≡ reject
unfolding transition
terminal_rejects w r s t o named found from terminal = elim (Option-cases (requested_edge r)) [
  | inl missing ↦ ground arith
  | inr (e, fits) ↦
      let q = requested_edge-IsRequested r e fits in
      let same : q.contract ≡ o = ground arith in
      let start : e.from ≡ t = ground (arith, q.fits.from) in
      absurd (
        ground
          (arith, contract-final s o e found (subst (λ c. Memᴰ e c.transitions) same q.listed)))
]
