-- ===== src/Kernel/Protocol/Unique.antt =====
-- Which documents `UniqueJson` of kernel/src/lib.rs accepts.
use clinx.Prelude.{
  String, Bool, true, false, not, ◌&&◌, ◌||◌, ◌≡◌, refl, ◌∙◌, ap, arith, ◌==◌, if◌then◌else◌,
  is_some,
}
use clinx.Prelude.Results.{ok, err, ◌>>=◌}
use clinx.Json.{Json, array, object, cons, Fields, end}
use clinx.Json.Access.{lookup, insert, lookup-insert}
use clinx.External.{External}
use clinx.Kernel.Protocol.{
  Document, visit_f64, visit_some, visit_seq, visit_map, Elements, no_element, next_element,
  Members, no_entry, next_entry, Parsed, Malformed, duplicate_field, insert_new, unique,
  unique_elements, unique_members,
}

abbrev named : String → Members → Bool
named k no_entry = false
named k (next_entry j d ms) = k == j || named k ms

-- Whether every object names each member once, and every float is finite.
module _ (w : External) where
  unfoldable mutual
    pub is_unique : Document → Bool
    is_unique (visit_f64 f) = w.is_finite f
    is_unique (visit_some d) = is_unique d
    is_unique (visit_seq ds) = elements_unique ds
    is_unique (visit_map ms) = members_unique ms
    is_unique _ = true

    elements_unique : Elements → Bool
    elements_unique no_element = true
    elements_unique (next_element d ds) = is_unique d && elements_unique ds

    members_unique : Members → Bool
    members_unique no_entry = true
    members_unique (next_entry k d ms) = not (named k ms) && (is_unique d && members_unique ms)

abbrev pub accepts : {A : Type 0} → Parsed A → Bool
accepts (ok a) = true
accepts (err e) = false

accepts->>= :
    {A B : Type 0} (m : Parsed A) (f : A → Parsed B) (b : Bool)
    → ((a : A) → accepts (f a) ≡ b)
    → accepts (m >>= f) ≡ (accepts m && b)
accepts->>= (ok a) f b each = each a
accepts->>= (err e) f b each = refl

accepts-wrap : {A B : Type 0} (m : Parsed A) (f : A → B) → accepts (m >>= λ a. ok (f a)) ≡ accepts m
accepts-wrap (ok a) f = refl
accepts-wrap (err e) f = refl

accepts-if :
    {A B : Type 0} (b : Bool) (e : Malformed) (a : A) (f : A → Parsed B)
    → accepts ((if b then err e else ok a) >>= f) ≡ (not b && accepts (f a))
accepts-if true e a f = refl
accepts-if false e a f = refl

regroup :
    (u bound n new m : Bool)
    → (u && (not bound && ((not n && new) && m))) ≡ ((not bound && new) && (not n && (u && m)))
regroup u bound n new m = ground arith

-- No name of the members is in the map yet.
unfoldable all_new : Fields → Members → Bool
all_new values no_entry = true
all_new values (next_entry k d ms) = not (is_some (lookup k values)) && all_new values ms

all_new-end : (ms : Members) → all_new end ms ≡ true
unfolding all_new lookup
all_new-end no_entry = refl
all_new-end (next_entry k d ms) = all_new-end ms

all_new-insert :
    (k : String) (v : Json) (values : Fields) (ms : Members)
    → all_new (insert k v values) ms ≡ (not (named k ms) && all_new values ms)
unfolding all_new
all_new-insert k v values no_entry = refl
all_new-insert k v values (next_entry j d ms) =
    ground (arith, lookup-insert k j v values, all_new-insert k v values ms)

module _ (w : External) where
  mutual
    unfolding unique is_unique all_new insert_new

    unique_lem : (d : Document) → accepts (unique w d) ≡ is_unique w d
    unique_lem (visit_f64 f) = ground arith
    unique_lem (visit_some d) = unique_lem d
    unique_lem (visit_seq ds) = accepts-wrap (unique_elements w ds) array ∙ elements_lem ds
    unique_lem (visit_map ms) =
        accepts-wrap (unique_members w end ms) object
        ∙ members_lem end ms
        ∙ ap (λ b. b && members_unique w ms) (all_new-end ms)
    unique_lem _ = refl

    elements_lem : (ds : Elements) → accepts (unique_elements w ds) ≡ elements_unique w ds
    elements_lem no_element = refl
    elements_lem (next_element d ds) =
        accepts->>= (unique w d) (λ x. unique_elements w ds >>= λ xs. ok (cons x xs))
          (elements_unique w ds)
          (λ x. accepts-wrap (unique_elements w ds) (cons x) ∙ elements_lem ds)
        ∙ ap (λ b. b && elements_unique w ds) (unique_lem d)

    members_lem :
        (values : Fields) (ms : Members)
        → accepts (unique_members w values ms) ≡ (all_new values ms && members_unique w ms)
    members_lem values no_entry = refl
    members_lem values (next_entry k d ms) =
        accepts->>= (unique w d) (λ v. insert_new k v values >>= λ more. unique_members w more ms)
          (not (is_some (lookup k values))
            && ((not (named k ms) && all_new values ms) && members_unique w ms))
          (λ v.
            accepts-if (is_some (lookup k values)) (duplicate_field k) (insert k v values)
              (λ more. unique_members w more ms)
            ∙ ap (λ b. not (is_some (lookup k values)) && b)
                (members_lem (insert k v values) ms
                  ∙ ap (λ b. b && members_unique w ms) (all_new-insert k v values ms)))
        ∙ (ap
              (λ u.
                u
                && (not (is_some (lookup k values))
                    && ((not (named k ms) && all_new values ms) && members_unique w ms)))
              (unique_lem d)
            ∙ regroup (is_unique w d) (is_some (lookup k values)) (named k ms) (all_new values ms)
                (members_unique w ms))

-- A document is accepted just where every float is finite and no object names a member twice, at
-- any depth.
pub accepts-unique : (w : External) (d : Document) → accepts (unique w d) ≡ is_unique w d
accepts-unique w d = unique_lem w d
