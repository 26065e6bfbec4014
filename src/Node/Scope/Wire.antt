-- ===== src/Node/Scope/Wire.antt =====
-- Scopes of kernel/src/node_scope.rs on the wire: `value` and `parse`.
use mathlib.Core.List.{append-nil, append_assoc}
use clinx.Prelude.{
  ℕ, ◌+◌, ◌≤◌, String, ◌≡◌, refl, sym, ap, subst, true, false, some, List, [], ◌∷◌, ◌++◌, arith,
  length, length-append, contains, Bool-cases, Option-cases, inl, inr,
}
use clinx.Prelude.Results.{ok}
use clinx.Prelude.Text.{chars}
use clinx.Prelude.Trim.{trim, trim-trim, chars-trim, length-trim_chars, all-trim_chars}
use clinx.Json.{Json, array, to_list, of_list}
use clinx.Json.Access.{lookup, as_str, as_bool}
use clinx.Json.Decode.{struct_fields, as_texts, texts_of}
use clinx.Node.Scope.{
  Scope, decode, printable, text, normalize, checked, parse, value, text_items, user_limit,
  provider_limit, project_limit, list_limit,
}

some-injective : {A : Type 0} {a b : A} → some a ≡ some b → a ≡ b
some-injective h = cc

pub text-trim : (limit : ℕ) (s : String) → text limit s ≡ true → text limit (trim s) ≡ true
unfolding text
text-trim limit s h = ground (
  arith,
  trim-trim s,
  chars-trim s,
  length-trim_chars (chars s),
  all-trim_chars printable (chars s),
)

module _ (limit : ℕ) where
  -- Entries that `normalize` keeps as they are, behind those of `seen`.
  abbrev Fresh : List String → List String → Type 0
  Fresh seen [] = Unit
  Fresh seen (s ∷ ss) =
      (text limit s ≡ true) × (trim s ≡ s) × (contains seen s ≡ false) × Fresh (seen ++ s ∷ []) ss

  Fresh-snoc :
      (seen xs : List String) (s : String)
      → Fresh seen xs
      → text limit s ≡ true
      → trim s ≡ s
      → contains (seen ++ xs) s ≡ false
      → Fresh seen (xs ++ s ∷ [])
  Fresh-snoc seen [] s fresh good same new = (good, same, rw (← append-nil seen) new, tt)
  Fresh-snoc seen (x ∷ xs) s (a, b, c, fresh) good same new =
      (a, b, c, Fresh-snoc (seen ++ x ∷ []) xs s fresh good same (rw append_assoc new))

  normalize-Fresh :
      (seen ss : List String) → Fresh seen ss → normalize limit seen ss ≡ some (seen ++ ss)
  unfolding normalize
  normalize-Fresh seen [] fresh = ap some (sym (append-nil seen))
  normalize-Fresh seen (s ∷ ss) (good, same, new, fresh) = ground (
    arith,
    good,
    same,
    new,
    normalize-Fresh (seen ++ s ∷ []) ss fresh,
    append_assoc seen (s ∷ []) ss,
  )

  Fresh-normalize :
      (seen ss : List String) {out : List String}
      → Fresh [] seen
      → normalize limit seen ss ≡ some out
      → Fresh [] out × (length out ≤ length seen + length ss)
  unfolding normalize
  Fresh-normalize seen [] fresh h =
      let same = some-injective h in (subst (Fresh []) same fresh, ground (arith, ap length same))
  Fresh-normalize seen (s ∷ ss) fresh h = elim (Bool-cases (text limit s)) [
    | inl good ↦ elim (Bool-cases (contains seen (trim s))) [
      | inl old ↦
          let (kept, bound) = Fresh-normalize seen ss fresh (ground arith) in
          (kept, omega (arith, bound))
      | inr new ↦
          let (kept, bound) =
            Fresh-normalize (seen ++ trim s ∷ []) ss
              (Fresh-snoc [] seen (trim s) fresh (text-trim limit s good) (trim-trim s) new)
              (ground arith) in
          (kept, omega (arith, bound, length-append seen (trim s ∷ [])))
    ]
    | inr bad ↦ ground arith
  ]

texts_of-text_items : (ss : List String) → texts_of (text_items ss) ≡ some ss
unfolding texts_of as_str
texts_of-text_items [] = refl
texts_of-text_items (s ∷ ss) = ground (arith, texts_of-text_items ss)

to_list-of_list : (vs : List Json) → to_list (of_list vs) ≡ vs
to_list-of_list [] = refl
to_list-of_list (v ∷ vs) = ap (λ us. v ∷ us) (to_list-of_list vs)

as_texts-text_items : (ss : List String) → as_texts (array (of_list (text_items ss))) ≡ some ss
unfolding as_texts
as_texts-text_items ss = rw to_list-of_list (texts_of-text_items ss)

decode-value : (now : String) (s : Scope) → decode now (value s) ≡ some s
unfolding decode value struct_fields lookup as_str as_bool
decode-value now s = ground (arith, as_texts-text_items s.projects, as_texts-text_items s.providers)

-- What `parse` has let through.
record IsParsed (s : Scope) : Type 0 where
  user : text user_limit s.user_scope ≡ true
  trimmed : trim s.user_scope ≡ s.user_scope
  providers : Fresh provider_limit [] s.providers
  projects : Fresh project_limit [] s.projects
  few_providers : length s.providers ≤ list_limit
  few_projects : length s.projects ≤ list_limit

IsParsed-checked : (s : Scope) → IsParsed s → checked s ≡ ok s
unfolding checked
IsParsed-checked s p = ground (
  arith,
  p.user,
  p.trimmed,
  normalize-Fresh provider_limit [] s.providers p.providers,
  normalize-Fresh project_limit [] s.projects p.projects,
  p.few_providers,
  p.few_projects,
)

checked-IsParsed : (r s : Scope) → checked r ≡ ok s → IsParsed s
unfolding checked
checked-IsParsed r s h = elim (Option-cases (normalize provider_limit [] r.providers)) [
  | inl broken ↦ ground arith
  | inr (ps, listed_providers) ↦ elim (Option-cases (normalize project_limit [] r.projects)) [
    | inl broken ↦ ground arith
    | inr (qs, listed_projects) ↦
        let trimmed : Scope = record r {
          user_scope = trim r.user_scope;
          providers = ps;
          projects = qs;
        } in
        let same : trimmed ≡ s = ground arith in
        let (fresh_providers, few_providers) =
          Fresh-normalize provider_limit [] r.providers tt listed_providers in
        let (fresh_projects, few_projects) =
          Fresh-normalize project_limit [] r.projects tt listed_projects in
        subst IsParsed same (record {
          user = text-trim user_limit r.user_scope (ground arith);
          trimmed = trim-trim r.user_scope;
          providers = fresh_providers;
          projects = fresh_projects;
          few_providers = ground (arith, few_providers);
          few_projects = ground (arith, few_projects);
        })
  ]
]

-- A scope that has been parsed is written as a value from which the very same scope is parsed,
-- whatever the clock shows.
pub parse-value :
    (now later : String) (v : Json) (s : Scope) → parse now v ≡ ok s → parse later (value s) ≡ ok s
unfolding parse
parse-value now later v s h = elim (Option-cases (decode now v)) [
  | inl broken ↦ ground arith
  | inr (r, read) ↦
      ground (arith, decode-value later s, IsParsed-checked s (checked-IsParsed r s (ground arith)))
]
