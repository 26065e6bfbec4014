-- ===== src/Kernel/Protocol.antt =====
-- The protocol of kernel/src/lib.rs: how a frame becomes a request, and what a request is answered.
-- serde_json's parser is a parameter: it drives the visitor `UniqueJsonVisitor`, and a `Document` is
-- what it drives it with. The texts of the errors are not modelled.
pub mod Unique
pub mod Answers
use Prim.Native.String.{len}
use clinx.Prelude.{
  ℕ, String, Bool, true, false, not, ◌||◌, Option, none, some, List, [], ◌∷◌, ◌==◌, ltb, all,
  contains, is_some, if◌then◌else◌,
}
use clinx.Prelude.Int.{ℤ, pos, negsuc}
use clinx.Prelude.Results.{Result, ok, err, ◌>>=◌, ensure}
use clinx.Json.{
  Number, pos_int, neg_int, float, Json, null, bool, number, string, array, object, Items, nil,
  cons, Fields, end, names,
}
use clinx.Json.Access.{lookup, insert, as_str}
use clinx.Json.Decode.{struct_fields, required}
use clinx.External.{External}
use clinx.Kernel.{Checked}
use clinx.Kernel.Depth.{json_depth}
use clinx.Kernel.Ownership.{evaluate_ownership}
use clinx.Kernel.Assignment.Replay.{replay_assignment}

abbrev pub protocol_version : String
protocol_version = "CLINX_KERNEL_V1"

abbrev pub authority : String
authority = "NON_AUTHORITATIVE"

abbrev pub max_json_depth : ℕ
max_json_depth = 32

-- The calls of the visitor, one constructor each.
mutual
  pub data Document : Type 0 where
    visit_bool : Bool → Document
    visit_i64 : ℤ → Document
    visit_u64 : ℕ → Document
    visit_f64 : ℕ → Document
    visit_str : String → Document
    visit_none : Document
    visit_unit : Document
    visit_some : Document → Document
    visit_seq : Elements → Document
    visit_map : Members → Document

  pub data Elements : Type 0 where
    no_element : Elements
    next_element : Document → Elements → Elements

  pub data Members : Type 0 where
    no_entry : Members
    next_entry : String → Document → Members → Members

pub data Malformed : Type 0 where
  duplicate_field : String → Malformed
  not_finite : Malformed
  not_json : Malformed
  not_a_request : Malformed

abbrev pub Parsed : Type 0 → Type 0
Parsed A = Result Malformed A

-- `Value::Number(value.into())` of an `i64`.
abbrev of_i64 : ℤ → Number
of_i64 (pos n) = pos_int n
of_i64 (negsuc n) = neg_int n

-- `values.insert(key, value).is_some()` is an error.
unfoldable pub insert_new : String → Json → Fields → Parsed Fields
insert_new k v values =
    if is_some (lookup k values) then err (duplicate_field k) else ok (insert k v values)

module _ (w : External) where
  unfoldable mutual
    pub unique : Document → Parsed Json
    unique (visit_bool b) = ok (bool b)
    unique (visit_i64 i) = ok (number (of_i64 i))
    unique (visit_u64 n) = ok (number (pos_int n))
    unique (visit_f64 f) = if w.is_finite f then ok (number (float f)) else err not_finite
    unique (visit_str s) = ok (string s)
    unique visit_none = ok null
    unique visit_unit = ok null
    unique (visit_some d) = unique d
    unique (visit_seq ds) = unique_elements ds >>= λ xs. ok (array xs)
    unique (visit_map ms) = unique_members end ms >>= λ fs. ok (object fs)

    pub unique_elements : Elements → Parsed Items
    unique_elements no_element = ok nil
    unique_elements (next_element d ds) = do x ← unique d; xs ← unique_elements ds; ok (cons x xs)

    pub unique_members : Fields → Members → Parsed Fields
    unique_members values no_entry = ok values
    unique_members values (next_entry k d ms) = do
      v ← unique d
      more ← insert_new k v values
      unique_members more ms

pub record ProtocolRequest : Type 0 where
  pub request_id : String
  pub protocol_version : String
  pub operation : String
  pub payload : Json

abbrev request_fields : List String
request_fields = "request_id" ∷ "protocol_version" ∷ "operation" ∷ "payload" ∷ []

abbrev request_from : Fields → Option ProtocolRequest
request_from fs = elim (required as_str (lookup "request_id" fs)) [
  | none ↦ none
  | some request_id ↦ elim (required as_str (lookup "protocol_version" fs)) [
    | none ↦ none
    | some version ↦ elim (required as_str (lookup "operation" fs)) [
      | none ↦ none
      | some operation ↦ elim (lookup "payload" fs) [
        | none ↦ none
        | some payload ↦ some (record {
          request_id = request_id;
          protocol_version = version;
          operation = operation;
          payload = payload;
        })
      ]
    ]
  ]
]

-- The derived `Deserialize`, with `deny_unknown_fields`.
unfoldable pub decode_request : Json → Parsed ProtocolRequest
decode_request v = elim (struct_fields request_fields v) [
  | none ↦ err not_a_request
  | some fs ↦
      if all (contains request_fields) (names fs)
      then elim (request_from fs) [ none ↦ err not_a_request | some r ↦ ok r ]
      else err not_a_request
]

-- serde_json's parser on the bytes of a frame: the calls of the visitor, and whether `end` finds
-- nothing behind the document.
pub record Parser : Type 0 where
  pub document : List ℕ → Option Document
  pub at_end : List ℕ → Bool

-- A frame that is no JSON is an error; which one, if a visitor's call fails before, is left open.
unfoldable pub parse_protocol_request : External → Parser → List ℕ → Parsed ProtocolRequest
parse_protocol_request w p frame = elim (p.document frame) [
  | none ↦ err not_json
  | some d ↦ do parsed ← unique w d; _ ← ensure (p.at_end frame) not_json; decode_request parsed
]

pub record ProtocolResponse : Type 0 where
  pub request_id : String
  pub protocol_version : String
  pub is_ok : Bool
  pub authority : String
  pub result : Option Json
  pub error : Option String

-- `ProtocolResponse::success` and `ProtocolResponse::failure`
abbrev pub success : String → Json → ProtocolResponse
success request_id result = record {
  request_id = request_id;
  protocol_version = protocol_version;
  is_ok = true;
  authority = authority;
  result = some result;
  error = none;
}

abbrev pub failure : String → String → ProtocolResponse
failure request_id code = record {
  request_id = request_id;
  protocol_version = protocol_version;
  is_ok = false;
  authority = authority;
  result = none;
  error = some code;
}

-- `json_depth(&request.payload) > MAX_JSON_DEPTH`
abbrev pub too_deep : Json → Bool
too_deep v = elim (json_depth v) [ none ↦ true | some depth ↦ ltb max_json_depth depth ]

module _ (w : External) where
  unfoldable pub operate : String → Json → Checked Json
  operate operation payload =
      if operation == "evaluate_ownership"
      then evaluate_ownership payload
      else if operation == "replay_assignment"
      then replay_assignment w payload
      else err "UNKNOWN_OPERATION"

  abbrev pub respond : String → Checked Json → ProtocolResponse
  respond request_id (ok v) = success request_id v
  respond request_id (err code) = failure request_id code

  unfoldable pub execute_request : ProtocolRequest → ProtocolResponse
  unfolding operate
  execute_request r =
      if r.request_id == "" || ltb 128 (len r.request_id)
      then failure r.request_id "INVALID_REQUEST_ID"
      else if not (r.protocol_version == protocol_version)
      then failure r.request_id "UNSUPPORTED_PROTOCOL"
      else if too_deep r.payload
      then failure r.request_id "INPUT_LIMIT_EXCEEDED"
      else respond r.request_id (operate r.operation r.payload)
