-- ===== src/Kernel/Depth.antt =====
-- `json_depth` in kernel/src/lib.rs: the nesting of a value, found with a stack of pending values.
use clinx.Prelude.{
  ℕ, zero, suc, ◌+◌, ◌≤◌, Option, none, some, List, [], ◌∷◌, ◌≡◌, ◌∙◌, ap, refl, leb, arith,
  if◌then◌else◌,
}
use clinx.Json.{Json, array, object, Items, nil, cons, Fields, end, field, to_list}

abbrev pub max : ℕ → ℕ → ℕ
max a b = if leb a b then b else a

abbrev pub values : Fields → List Json
values end = []
values (field k v fs) = v ∷ values fs

abbrev children : Json → List Json
children (array xs) = to_list xs
children (object fs) = values fs
children _ = []

-- `pending.extend(…)`: the last one is the next to be popped.
abbrev extend : ℕ → List Json → List (Json × ℕ) → List (Json × ℕ)
extend depth [] pending = pending
extend depth (v ∷ vs) pending = extend depth vs ((v, depth) ∷ pending)

-- The loop, with fuel: `none` where it runs out.
unfoldable pub visit : ℕ → ℕ → List (Json × ℕ) → Option ℕ
visit fuel deepest [] = some deepest
visit zero deepest (next ∷ pending) = none
visit (suc fuel) deepest ((current, depth) ∷ pending) =
    visit fuel (max deepest depth) (extend (suc depth) (children current) pending)

-- The values in a value, itself included: the rounds of the loop.
unfoldable mutual
  pub nodes : Json → ℕ
  nodes (array xs) = suc (item_nodes xs)
  nodes (object fs) = suc (field_nodes fs)
  nodes _ = 1

  item_nodes : Items → ℕ
  item_nodes nil = 0
  item_nodes (cons x xs) = nodes x + item_nodes xs

  field_nodes : Fields → ℕ
  field_nodes end = 0
  field_nodes (field k v fs) = nodes v + field_nodes fs

unfoldable pub json_depth : Json → Option ℕ
unfolding visit
json_depth v = visit (nodes v) 1 ((v, 1) ∷ [])

-- The levels below a value, by its structure.
mutual
  pub levels : Json → ℕ
  levels (array xs) = item_levels xs
  levels (object fs) = field_levels fs
  levels _ = 0

  pub item_levels : Items → ℕ
  item_levels nil = 0
  item_levels (cons x xs) = max (suc (levels x)) (item_levels xs)

  pub field_levels : Fields → ℕ
  field_levels end = 0
  field_levels (field k v fs) = max (suc (levels v)) (field_levels fs)

all_nodes : List Json → ℕ
all_nodes [] = 0
all_nodes (v ∷ vs) = nodes v + all_nodes vs

-- What is left to visit, and how deep it reaches.
left : List (Json × ℕ) → ℕ
left [] = 0
left ((v, d) ∷ pending) = nodes v + left pending

reach : List (Json × ℕ) → ℕ
reach [] = 0
reach ((v, d) ∷ pending) = max (d + levels v) (reach pending)

deepest_at : ℕ → List Json → ℕ
deepest_at d [] = 0
deepest_at d (v ∷ vs) = max (d + levels v) (deepest_at d vs)

left-extend :
    (d : ℕ) (vs : List Json) (pending : List (Json × ℕ))
    → left (extend d vs pending) ≡ all_nodes vs + left pending
unfolding left all_nodes
left-extend d [] pending = ground arith
left-extend d (v ∷ vs) pending = ground (arith, left-extend d vs ((v, d) ∷ pending))

reach-extend :
    (d : ℕ) (vs : List Json) (pending : List (Json × ℕ))
    → reach (extend d vs pending) ≡ max (deepest_at d vs) (reach pending)
unfolding reach deepest_at
reach-extend d [] pending = ground arith
reach-extend d (v ∷ vs) pending = ground (arith, reach-extend d vs ((v, d) ∷ pending))

max_step : (d l m i : ℕ) → max d m ≡ d + i → max d (max (suc d + l) m) ≡ d + max (suc l) i
max_step d l m i h = ground arith

items_reach : (d : ℕ) (xs : Items) → max d (deepest_at (suc d) (to_list xs)) ≡ d + item_levels xs
unfolding deepest_at levels
items_reach d nil = ground arith
items_reach d (cons x xs) =
    max_step d (levels x) (deepest_at (suc d) (to_list xs)) (item_levels xs) (items_reach d xs)

fields_reach : (d : ℕ) (fs : Fields) → max d (deepest_at (suc d) (values fs)) ≡ d + field_levels fs
unfolding deepest_at levels
fields_reach d end = ground arith
fields_reach d (field k v fs) =
    max_step d (levels v) (deepest_at (suc d) (values fs)) (field_levels fs) (fields_reach d fs)

children_reach : (d : ℕ) (v : Json) → max d (deepest_at (suc d) (children v)) ≡ d + levels v
unfolding deepest_at levels
children_reach d (array xs) = items_reach d xs
children_reach d (object fs) = fields_reach d fs
children_reach d _ = ground arith

item_nodes-to_list : (xs : Items) → all_nodes (to_list xs) ≡ item_nodes xs
unfolding all_nodes nodes
item_nodes-to_list nil = refl
item_nodes-to_list (cons x xs) = ground (arith, item_nodes-to_list xs)

field_nodes-values : (fs : Fields) → all_nodes (values fs) ≡ field_nodes fs
unfolding all_nodes nodes
field_nodes-values end = refl
field_nodes-values (field k v fs) = ground (arith, field_nodes-values fs)

nodes-children : (v : Json) → nodes v ≡ suc (all_nodes (children v))
unfolding nodes all_nodes
nodes-children (array xs) = ground (arith, item_nodes-to_list xs)
nodes-children (object fs) = ground (arith, field_nodes-values fs)
nodes-children _ = refl

visit-reach :
    (fuel deepest : ℕ) (pending : List (Json × ℕ))
    → left pending ≤ fuel
    → visit fuel deepest pending ≡ some (max deepest (reach pending))
unfolding visit left reach
visit-reach fuel deepest [] enough = ground arith
visit-reach zero deepest ((v, d) ∷ pending) enough = ground (arith, nodes-children v)
visit-reach (suc fuel) deepest ((v, d) ∷ pending) enough =
    visit-reach fuel (max deepest d) (extend (suc d) (children v) pending)
      (ground (arith, nodes-children v, left-extend (suc d) (children v) pending))
    ∙ ap some (ground (arith, reach-extend (suc d) (children v) pending, children_reach d v))

-- The loop of `json_depth` ends within as many rounds as the value has parts, and what it has
-- found is the number of levels of the value's structure.
pub json_depth-levels : (v : Json) → json_depth v ≡ some (suc (levels v))
unfolding json_depth left reach
json_depth-levels v = visit-reach (nodes v) 1 ((v, 1) ∷ []) (ground arith) ∙ ap some (ground arith)
