-- ===== src/ExecutionCore/Contract.antt =====
-- The lifecycle table of the frozen contract, fixtures/execution_core_v1.json, which
-- kernel/src/execution_core.rs includes at build time: for each object its initial state, its
-- terminal states and its transitions with their guards.
use clinx.Prelude.{String, List, [], ◌∷◌, Option, none, some, ◌==◌, if◌then◌else◌}

pub record Edge : Type 0 where
  pub from : String
  pub to : String
  pub action : String
  pub actor : String
  pub guards : List String

pub record ObjectContract : Type 0 where
  pub name : String
  pub initial : String
  pub terminal : List String
  pub transitions : List Edge

abbrev edge : String → String → String → String → List String → Edge
edge from action to actor guards = record {
  from = from;
  to = to;
  action = action;
  actor = actor;
  guards = guards;
}

abbrev task_edges : List Edge
task_edges =
    edge "OPEN" "activate" "ACTIVE" "task_command" ([])
    ∷ edge "ACTIVE" "block" "BLOCKED" "task_command" ([])
    ∷ edge "BLOCKED" "resume" "ACTIVE" "task_command" ([])
    ∷ edge "ACTIVE" "complete" "COMPLETED" "task_command" ("children_resolved" ∷ [])
    ∷ edge "OPEN" "cancel" "CANCELLED" "task_command" ("children_resolved" ∷ [])
    ∷ edge "ACTIVE" "cancel" "CANCELLED" "task_command" ("children_resolved" ∷ [])
    ∷ edge "BLOCKED" "cancel" "CANCELLED" "task_command" ("children_resolved" ∷ [])
    ∷ edge "COMPLETED" "archive" "ARCHIVED" "task_command" ([])
    ∷ edge "CANCELLED" "archive" "ARCHIVED" "task_command" ([])
    ∷ []

abbrev execution_edges : List Edge
execution_edges =
    edge "REQUESTED" "admit" "ADMITTED" "command" ("admission" ∷ [])
    ∷ edge "ADMITTED" "dispatch" "RUNNING" "worker" ("fence" ∷ "binding" ∷ "not_dispatched" ∷ [])
    ∷ edge "ADMITTED" "uncertain" "RECOVERY_REQUIRED" "owner" ([])
    ∷ edge "RUNNING" "uncertain" "RECOVERY_REQUIRED" "owner" ([])
    ∷ edge "FINALIZING" "uncertain" "RECOVERY_REQUIRED" "finalizer" ([])
    ∷ edge "RECOVERY_REQUIRED" "observe_live" "RUNNING" "reconciler" ("provider_live" ∷ [])
    ∷ edge "RECOVERY_REQUIRED" "resume_finalizer" "FINALIZING" "finalizer"
        ("provider_terminal" ∷ [])
    ∷ edge "RUNNING" "begin_finalizer" "FINALIZING" "finalizer" ("provider_terminal" ∷ [])
    ∷ edge "ADMITTED" "reject_before_dispatch" "FINALIZING" "finalizer" ("not_dispatched" ∷ [])
    ∷ edge "FINALIZING" "commit_succeeded" "SUCCEEDED" "finalizer" ("finalizer" ∷ [])
    ∷ edge "FINALIZING" "commit_blocked" "BLOCKED" "finalizer" ("finalizer" ∷ [])
    ∷ edge "FINALIZING" "commit_failed" "FAILED" "finalizer" ("finalizer" ∷ [])
    ∷ edge "FINALIZING" "commit_cancelled" "CANCELLED" "finalizer" ("finalizer" ∷ [])
    ∷ []

abbrev attempt_edges : List Edge
attempt_edges =
    edge "PENDING" "assign" "ASSIGNED" "coordinator" ("fence" ∷ [])
    ∷ edge "ASSIGNED" "start" "PROVIDER_STARTED" "worker"
        ("fence" ∷ "binding" ∷ "not_dispatched" ∷ [])
    ∷ edge "PROVIDER_STARTED" "observe_live" "TURN_RUNNING" "worker"
        ("fence" ∷ "provider_live" ∷ [])
    ∷ edge "TURN_RUNNING" "observe" "OBSERVING" "worker" ("fence" ∷ "binding" ∷ [])
    ∷ edge "OBSERVING" "finish" "TERMINAL" "finalizer" ("provider_terminal" ∷ "deliveries" ∷ [])
    ∷ edge "PENDING" "reject" "TERMINAL" "finalizer" ("not_dispatched" ∷ [])
    ∷ edge "ASSIGNED" "lost" "LOST" "coordinator" ([])
    ∷ edge "PROVIDER_STARTED" "lost" "LOST" "coordinator" ([])
    ∷ edge "TURN_RUNNING" "lost" "LOST" "coordinator" ([])
    ∷ edge "OBSERVING" "lost" "LOST" "coordinator" ([])
    ∷ edge "LOST" "observe_same" "OBSERVING" "reconciler" ("binding" ∷ [])
    ∷ edge "LOST" "retry_unstarted" "PENDING" "coordinator" ("retry" ∷ [])
    ∷ []

abbrev provider_session_edges : List Edge
provider_session_edges =
    edge "DISCOVERED" "bind" "BOUND" "adapter" ("binding" ∷ [])
    ∷ edge "BOUND" "start" "ACTIVE" "adapter" ("binding" ∷ [])
    ∷ edge "ACTIVE" "pause" "PAUSED" "adapter" ([])
    ∷ edge "ACTIVE" "disconnect" "UNAVAILABLE" "adapter" ([])
    ∷ edge "BOUND" "disconnect" "UNAVAILABLE" "adapter" ([])
    ∷ edge "PAUSED" "disconnect" "UNAVAILABLE" "adapter" ([])
    ∷ edge "PAUSED" "resume" "ACTIVE" "adapter" ("binding" ∷ [])
    ∷ edge "UNAVAILABLE" "reobserve" "ACTIVE" "adapter" ("provider_live" ∷ [])
    ∷ edge "DISCOVERED" "close" "CLOSED" "adapter" ([])
    ∷ edge "BOUND" "close" "CLOSED" "adapter" ([])
    ∷ edge "ACTIVE" "close" "CLOSED" "adapter" ([])
    ∷ edge "PAUSED" "close" "CLOSED" "adapter" ([])
    ∷ edge "UNAVAILABLE" "close" "CLOSED" "adapter" ([])
    ∷ []

abbrev runtime_worker_edges : List Edge
runtime_worker_edges =
    edge "REGISTERED" "heartbeat" "HEALTHY" "registry" ("incarnation" ∷ [])
    ∷ edge "HEALTHY" "heartbeat" "HEALTHY" "registry" ("incarnation" ∷ [])
    ∷ edge "HEALTHY" "drain" "DRAINING" "registry" ([])
    ∷ edge "REGISTERED" "offline" "OFFLINE" "registry" ([])
    ∷ edge "HEALTHY" "offline" "OFFLINE" "registry" ([])
    ∷ edge "DRAINING" "offline" "OFFLINE" "registry" ([])
    ∷ edge "OFFLINE" "register_new_incarnation" "REGISTERED" "registry" ("new_incarnation" ∷ [])
    ∷ []

abbrev resource_allocation_edges : List Edge
resource_allocation_edges =
    edge "REQUESTED" "grant" "HELD" "coordinator" ("grant" ∷ [])
    ∷ edge "HELD" "activate" "ACTIVE" "coordinator" ("fence" ∷ [])
    ∷ edge "ACTIVE" "renew" "ACTIVE" "worker" ("fence" ∷ [])
    ∷ edge "HELD" "expire" "QUARANTINED" "coordinator" ("expired" ∷ [])
    ∷ edge "ACTIVE" "expire" "QUARANTINED" "coordinator" ("expired" ∷ [])
    ∷ edge "ACTIVE" "orphan" "QUARANTINED" "coordinator" ([])
    ∷ edge "HELD" "orphan" "QUARANTINED" "coordinator" ([])
    ∷ edge "QUARANTINED" "recover" "RELEASE_PENDING" "coordinator" ("stopped" ∷ [])
    ∷ edge "HELD" "release" "RELEASE_PENDING" "finalizer" ("release" ∷ [])
    ∷ edge "ACTIVE" "release" "RELEASE_PENDING" "finalizer" ("release" ∷ [])
    ∷ edge "RELEASE_PENDING" "commit_release" "RELEASED" "coordinator" ("release" ∷ [])
    ∷ edge "RELEASE_PENDING" "commit_unstarted_recovery" "RELEASED" "coordinator"
        ("stopped" ∷ "not_dispatched" ∷ [])
    ∷ []

abbrev event_edges : List Edge
event_edges = edge "ABSENT" "append" "COMMITTED" "event_store" ("event_bundle" ∷ []) ∷ []

abbrev pub objects : List ObjectContract
objects =
    record { name = "Task"; initial = "OPEN"; terminal = "ARCHIVED" ∷ []; transitions = task_edges }
    ∷ record {
      name = "Execution";
      initial = "REQUESTED";
      terminal = "SUCCEEDED" ∷ "BLOCKED" ∷ "FAILED" ∷ "CANCELLED" ∷ [];
      transitions = execution_edges;
    }
    ∷ record {
      name = "Attempt";
      initial = "PENDING";
      terminal = "TERMINAL" ∷ [];
      transitions = attempt_edges;
    }
    ∷ record {
      name = "ProviderSession";
      initial = "DISCOVERED";
      terminal = "CLOSED" ∷ [];
      transitions = provider_session_edges;
    }
    ∷ record {
      name = "RuntimeWorker";
      initial = "REGISTERED";
      terminal = [];
      transitions = runtime_worker_edges;
    }
    ∷ record {
      name = "ResourceAllocation";
      initial = "REQUESTED";
      terminal = "RELEASED" ∷ [];
      transitions = resource_allocation_edges;
    }
    ∷ record {
      name = "Event";
      initial = "COMMITTED";
      terminal = "COMMITTED" ∷ [];
      transitions = event_edges;
    }
    ∷ []

-- `c["objects"].get(s)`
abbrev pub find_object : String → List ObjectContract → Option ObjectContract
find_object s [] = none
find_object s (o ∷ os) = if o.name == s then some o else find_object s os

unfoldable pub contract_object : String → Option ObjectContract
contract_object s = find_object s objects
