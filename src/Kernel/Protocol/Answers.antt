-- ===== src/Kernel/Protocol/Answers.antt =====
-- Which requests `execute_request` of kernel/src/lib.rs answers with a result.
use clinx.Json.Access.{◌!◌, is_text}
use clinx.Kernel.Ownership.Allowed.{allow-IsOwner}
use clinx.Kernel.Ownership.Owner.{IsOwner}
use clinx.Kernel.Ownership.{evaluate_ownership, ownership_parts, gather, allowed}
use Prim.Native.String.{len}
use clinx.Prelude.{
  String, suc, ◌≤◌, true, false, none, some, ◌≡◌, ◌≢◌, refl, ap, inl, inr, Bool-cases, eq_iff,
  arith, ◌==◌, ltb, [], sym, ◌∙◌,
}
use clinx.Prelude.Results.{ok}
use clinx.Json.{Json}
use clinx.External.{External}
use clinx.Kernel.Depth.{levels, json_depth-levels}
use clinx.Kernel.Protocol.{
  ProtocolRequest, protocol_version, success, too_deep, operate, execute_request,
}

-- A request within the limits whose operation answers with the value.
pub record IsAnswered (w : External) (r : ProtocolRequest) (v : Json) : Type 0 where
  pub named : r.request_id ≢ ""
  pub short : len r.request_id ≤ 128
  pub version : r.protocol_version ≡ protocol_version
  pub flat : suc (levels r.payload) ≤ 32
  pub answers : operate w r.operation r.payload ≡ ok v

too_deep-levels : (v : Json) → too_deep v ≡ ltb 32 (suc (levels v))
too_deep-levels v =
    ap (λ o. elim o [ none ↦ true | some depth ↦ ltb 32 depth ]) (json_depth-levels v)

module _ (w : External) (r : ProtocolRequest) (v : Json) where
  -- The tests of `execute_request`, with what passing them means.
  record Passes : Type 0 where
    pub named : (r.request_id == "") ≡ false
    pub short : ltb 128 (len r.request_id) ≡ false
    pub version : (r.protocol_version == protocol_version) ≡ true
    pub flat : too_deep r.payload ≡ false
    pub answers : operate w r.operation r.payload ≡ ok v

  passed : (execute_request w r).result ≡ some v → Passes
  unfolding execute_request
  passed h = record {
    named = ground arith;
    short = ground arith;
    version = ground arith;
    flat = ground arith;
    answers = ground arith;
  }

  Passes-IsAnswered : Passes → IsAnswered w r v
  Passes-IsAnswered p = record {
    named = λ empty. absurd (ground (arith, (eq_iff r.request_id "").1 empty, p.named));
    short = ground (arith, p.short);
    version = (eq_iff r.protocol_version protocol_version).0 p.version;
    flat = ground (arith, p.flat, too_deep-levels r.payload);
    answers = p.answers;
  }

  IsAnswered-Passes : IsAnswered w r v → Passes
  IsAnswered-Passes a = record {
    named = elim (Bool-cases (r.request_id == "")) [
      | inl empty ↦ absurd (a.named ((eq_iff r.request_id "").0 empty))
      | inr named ↦ named
    ];
    short = ground (arith, a.short);
    version = (eq_iff r.protocol_version protocol_version).1 a.version;
    flat = ground (arith, a.flat, too_deep-levels r.payload);
    answers = a.answers;
  }

  Passes-execute_request : Passes → execute_request w r ≡ success r.request_id v
  unfolding execute_request
  Passes-execute_request p = rw (p.named, p.short, p.version, p.flat, p.answers) refl

-- A request is answered with a result exactly when its id is not empty and has at most 128 bytes,
-- its version is the protocol's, its payload has at most 32 levels and its operation has this
-- result.
pub execute_request-IsAnswered :
    (w : External) (r : ProtocolRequest) (v : Json)
    → ((execute_request w r).result ≡ some v → IsAnswered w r v)
      × (IsAnswered w r v → execute_request w r ≡ success r.request_id v)
execute_request-IsAnswered w r v = (
  λ h. Passes-IsAnswered w r v (passed w r v h),
  λ a. Passes-execute_request w r v (IsAnswered-Passes w r v a),
)

operate-evaluate_ownership :
    (w : External) (operation : String) (payload : Json)
    → operation ≡ "evaluate_ownership"
    → operate w operation payload ≡ evaluate_ownership payload
unfolding operate
operate-evaluate_ownership w operation payload same = ap (λ o. operate w o payload) same

-- Where a request for "evaluate_ownership" is answered with a decision "ALLOW_CANDIDATE", its
-- payload holds a snapshot and a request whose evidence is complete and shows an owner, and the
-- answer is the decision that carries the snapshot's versions.
pub execute_request-IsOwner :
    (w : External) (r : ProtocolRequest) (v : Json)
    → r.operation ≡ "evaluate_ownership"
    → (execute_request w r).result ≡ some v
    → is_text (v ! "decision") "ALLOW_CANDIDATE" ≡ true
    → (snapshot : Json) × (request : Json) × (ownership_parts r.payload ≡ ok (snapshot, request))
      × (gather snapshot request ≡ ok [])
      × IsOwner snapshot request
      × (v ≡ allowed snapshot request)
execute_request-IsOwner w r v operation h allow =
    let answered = (execute_request-IsAnswered w r v).0 h in
    allow-IsOwner r.payload v
      (sym (operate-evaluate_ownership w r.operation r.payload operation) ∙ answered.answers) allow
