-- ===== src/Kernel/Ownership/Complete.antt =====
-- The values that `gather` of `evaluate_ownership` (kernel/src/lib.rs) leaves at each path that the
-- decision reads.
use Prim.Native.String.{len}
use clinx.Prelude.{
  ℕ, ◌≤◌, String, ◌≡◌, ◌≢◌, sym, ◌∙◌, subst, ◌⊎◌, inl, inr, true, some, List, [], ◌∷◌, ◌++◌, All,
  arith, eq_iff, Option-cases,
}
use clinx.Prelude.Results.{ok, >>=-eq-ok, ok-injective, Result-cases}
use clinx.Json.{Json, string, number, pos_int}
use clinx.Json.Access.{as_str, as_u64}
use clinx.Kernel.{Checked, max_safe_integer}
use clinx.Kernel.Timestamp.{valid_timestamp}
use clinx.Kernel.Required.{
  path_value, evidence, text_of, integer_of, required_text, required_integer, required_timestamp,
  require_all, Noted,
}
use clinx.Kernel.Ownership.{
  required_text_paths, required_integer_paths, required_timestamp_paths, request_text_paths,
  request_integer_paths, lifecycle_paths, lifecycles_known, gather,
}

-- The path leads to a text of 1 to 512 bytes.
pub record HasText (root : Json) (path : String) : Type 0 where
  pub value : String
  pub found : path_value root path ≡ some (string value)
  pub non_empty : value ≢ ""
  pub fits : len value ≤ 512

-- The path leads to an integer that a float holds exactly.
pub record HasInteger (root : Json) (path : String) : Type 0 where
  pub value : ℕ
  pub found : path_value root path ≡ some (number (pos_int value))
  pub fits : value ≤ max_safe_integer

pub record HasTimestamp (root : Json) (path : String) : Type 0 where
  pub text : HasText root path
  pub valid : valid_timestamp text.value ≡ true

as_str-string : (v : Json) (s : String) → as_str v ≡ some s → v ≡ string s
unfolding as_str
as_str-string (string t) s h = cc
as_str-string _ s h = cc

as_u64-number : (v : Json) (n : ℕ) → as_u64 v ≡ some n → v ≡ number (pos_int n)
unfolding as_u64
as_u64-number (number (pos_int m)) n h = cc
as_u64-number _ n h = cc

evidence-path_value :
    (root : Json) (path : String) (v : Json)
    → evidence root path ≡ some v
    → path_value root path ≡ some v
unfolding evidence
evidence-path_value root path v h = ground arith

text_of-HasText :
    (root : Json) (path : String) (v : Json) (s : String)
    → path_value root path ≡ some v
    → text_of v ≡ ok s
    → HasText root path
unfolding text_of
text_of-HasText root path v s found h = elim (Option-cases (as_str v)) [
  | inl missing ↦ absurd (ground arith)
  | inr (t, read) ↦ record {
    value = t;
    found = ground (arith, as_str-string v t read);
    non_empty = λ e. ground (arith, eq_iff t "");
    fits = ground arith;
  }
]

abbrev IsReader :
    {A : Type 0} → (Json → String → List String → Noted A) → (Json → String → Type 0) → Type 0
IsReader read P =
    (root : Json) (p : String) (m : List String) (r : _)
    → read root p m ≡ ok r
    → ((r.0 ≡ m) × P root p) ⊎ (r.0 ≡ m ++ p ∷ [])

required_text-IsReader : IsReader required_text HasText
unfolding required_text
required_text-IsReader root p m r h = elim (Option-cases (evidence root p)) [
  | inl missing ↦ inr (ground arith)
  | inr (v, found) ↦
      let (s, read, same) = >>=-eq-ok (text_of v) _ (rw (found, required_text) at h) in
      inl (ground arith, text_of-HasText root p v s (evidence-path_value root p v found) read)
]

required_integer-IsReader : IsReader required_integer HasInteger
unfolding required_integer integer_of
required_integer-IsReader root p m r h = elim (Option-cases (evidence root p)) [
  | inl missing ↦ inr (ground arith)
  | inr (v, found) ↦ elim (Option-cases (as_u64 v)) [
    | inl malformed ↦ absurd (ground arith)
    | inr (n, read) ↦ inl (
      ground arith,
      record {
        value = n;
        found = ground (arith, evidence-path_value root p v found, as_u64-number v n read);
        fits = ground arith;
      },
    )
  ]
]

text_of-string : (a b : String) → text_of (string a) ≡ ok b → a ≡ b
unfolding text_of as_str
text_of-string a b h = ground arith

text_value :
    (root : Json) (p : String) (v : Json) (s : String)
    → path_value root p ≡ some v
    → text_of v ≡ ok s
    → (t : HasText root p) → t.value ≡ s
text_value root p v s found h t =
    let same : v ≡ string t.value = ground (arith, t.found) in
    text_of-string t.value s (subst (λ x. text_of x ≡ ok s) same h)

required_timestamp-IsReader : IsReader required_timestamp HasTimestamp
unfolding required_timestamp required_text
required_timestamp-IsReader root p m r h = elim (Option-cases (evidence root p)) [
  | inl missing ↦ inr (ground arith)
  | inr (v, found) ↦ elim (Result-cases (text_of v)) [
    | inr (e, malformed) ↦ absurd (ground arith)
    | inl (s, read) ↦
        let lead = evidence-path_value root p v found in
        let t = text_of-HasText root p v s lead read in
        inl (
          ground arith,
          record {
            text = t;
            valid =
                subst (λ x. valid_timestamp x ≡ true) (sym (text_value root p v s lead read t))
                  (ground arith);
          },
        )
  ]
]

append-ne-nil : {A : Type 0} (xs : List A) (x : A) → xs ++ x ∷ [] ≢ []
append-ne-nil [] x h = cc
append-ne-nil (y ∷ ys) x h = cc

require_all_complete :
    {A : Type 0} (read : Json → String → List String → Noted A) (P : Json → String → Type 0)
    → IsReader read P
    → (root : Json) (ps : List String) (m : List String) → require_all read root ps m ≡ ok []
    → (m ≡ []) × All (P root) ps
unfolding require_all
require_all_complete read P reads root [] m h = (ok-injective h, tt)
require_all_complete read P reads root (p ∷ ps) m h =
    let (r, first, rest) = >>=-eq-ok (read root p m) _ h in
    let (empty, all) = require_all_complete read P reads root ps r.0 rest in
    elim (reads root p m r first) [
      | inl (kept, here) ↦ (sym kept ∙ empty, (here, all))
      | inr noted ↦ absurd (append-ne-nil m p (sym noted ∙ empty))
    ]

pub record IsComplete (snapshot request : Json) : Type 0 where
  pub texts : All (HasText snapshot) required_text_paths
  pub integers : All (HasInteger snapshot) required_integer_paths
  pub timestamps : All (HasTimestamp snapshot) required_timestamp_paths
  pub request_texts : All (HasText request) request_text_paths
  pub request_integers : All (HasInteger request) request_integer_paths

-- Evidence of which nothing is missing has a text, an integer or a timestamp at every path that is
-- read.
pub gather-IsComplete :
    (snapshot request : Json) → gather snapshot request ≡ ok [] → IsComplete snapshot request
unfolding gather
gather-IsComplete snapshot request h =
    let (m₁, texts, h₁) =
      >>=-eq-ok (require_all required_text snapshot required_text_paths []) _ h in
    let (_, known, h₂) = >>=-eq-ok (lifecycles_known snapshot lifecycle_paths) _ h₁ in
    let (m₂, integers, h₃) =
      >>=-eq-ok (require_all required_integer snapshot required_integer_paths m₁) _ h₂ in
    let (m₃, times, h₄) =
      >>=-eq-ok (require_all required_timestamp snapshot required_timestamp_paths m₂) _ h₃ in
    let (m₄, request_texts, h₅) =
      >>=-eq-ok (require_all required_text request request_text_paths m₃) _ h₄ in
    let (e₄, all₅) =
      require_all_complete required_integer HasInteger required_integer-IsReader request _ m₄ h₅ in
    let (e₃, all₄) =
      require_all_complete required_text HasText required_text-IsReader request _ m₃
        (at_nil request_texts e₄) in
    let (e₂, all₃) =
      require_all_complete required_timestamp HasTimestamp required_timestamp-IsReader snapshot _ m₂
        (at_nil times e₃) in
    let (e₁, all₂) =
      require_all_complete required_integer HasInteger required_integer-IsReader snapshot _ m₁
        (at_nil integers e₂) in
    let (_, all₁) =
      require_all_complete required_text HasText required_text-IsReader snapshot _ []
        (at_nil texts e₁) in
    record {
      texts = all₁;
      integers = all₂;
      timestamps = all₃;
      request_texts = all₄;
      request_integers = all₅;
    }
  where
    at_nil : {m : Checked (List String)} {n : List String} → m ≡ ok n → n ≡ [] → m ≡ ok []
    at_nil h e = rw (← e) h
