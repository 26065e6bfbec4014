-- ===== src/Tests/Protocol.antt =====
-- The theorems on the protocol, at a request to replay no events.
use clinx.Prelude.{◌≡◌, ap, refl, some, [], ◌∷◌, suc}
use clinx.Prelude.Results.{ok}
use clinx.Json.{Json, null, array, object, of_list, fields_of}
use clinx.Kernel.Depth.{levels, json_depth-levels}
use clinx.Kernel.Protocol.{
  Document, visit_map, visit_str, visit_f64, next_entry, no_entry, ProtocolRequest, success,
}
use clinx.Kernel.Protocol.Unique.{accepts, is_unique, accepts-unique}
use clinx.Kernel.Protocol.Answers.{IsAnswered, execute_request-IsAnswered, execute_request-IsOwner}
use clinx.Kernel.Ownership.{ownership_parts, gather, allowed}
use clinx.Kernel.Ownership.Owner.{IsOwner}
use clinx.Kernel.Protocol.{respond}
use clinx.Tests.Ownership
use clinx.Tests.{ext, value_of}
use clinx.Kernel.Assignment.Replay.{replay_assignment}
use clinx.Kernel.Depth.{visit, json_depth, nodes}
use clinx.Kernel.Protocol.{operate, execute_request, unique}

abbrev payload : Json
payload = (object (fields_of (("events", (array (of_list ([])))) ∷ [])))

abbrev request : ProtocolRequest
request = record {
  request_id = "r";
  protocol_version = "CLINX_KERNEL_V1";
  operation = "replay_assignment";
  payload = payload;
}

abbrev document : Document
document = visit_map (
    next_entry "a" (visit_str "x")
      (next_entry "b" (visit_f64 1) (next_entry "a" (visit_str "y") no_entry)))

json_depth-levels_example : json_depth payload ≡ some (suc (levels payload))
json_depth-levels_example = json_depth-levels payload

accepts-unique_example : accepts (unique ext document) ≡ is_unique ext document
accepts-unique_example = accepts-unique ext document

abbrev nothing_to_replay : Json
nothing_to_replay = value_of (replay_assignment ext payload) null

execute_request-IsAnswered_example :
    ((execute_request ext request).result ≡ some nothing_to_replay
      → IsAnswered ext request nothing_to_replay)
    × (IsAnswered ext request nothing_to_replay
        → execute_request ext request ≡ success request.request_id nothing_to_replay)
execute_request-IsAnswered_example = execute_request-IsAnswered ext request nothing_to_replay

abbrev asking : ProtocolRequest
asking = record {
  request_id = "q";
  protocol_version = "CLINX_KERNEL_V1";
  operation = "evaluate_ownership";
  payload = Ownership.payload;
}

asking-operates : operate ext "evaluate_ownership" Ownership.payload ≡ ok Ownership.decision
unfolding operate
asking-operates = Ownership.payload-allowed

asking-answered : (execute_request ext asking).result ≡ some Ownership.decision
unfolding execute_request json_depth visit nodes
asking-answered = ap (λ m. (respond ext "q" m).result) asking-operates

execute_request-IsOwner_example :
    (snapshot : Json) × (request : Json) × (ownership_parts Ownership.payload
      ≡ ok (snapshot, request))
    × (gather snapshot request ≡ ok [])
    × IsOwner snapshot request
    × (Ownership.decision ≡ allowed snapshot request)
execute_request-IsOwner_example =
    execute_request-IsOwner ext asking Ownership.decision refl asking-answered
      Ownership.decision-allows
