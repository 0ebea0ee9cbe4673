-- ===== src/Tests/Leases.antt =====
-- custom_components/doorfast/monitor.py: the coordinator at concrete states.
use doorfastforha.Prelude.{◌<◌, ◌≡◌, ◌⊎◌, refl, true, false, List, [], ◌∷◌, none, some, arith, pos}
use doorfastforha.Value.{str, int, dict, Fields, end, field}
use doorfastforha.Monitor.{
  MonitorCoordinator, MonitorLease, create, begin_terminal, lease_owned, validate_identity,
}
use doorfastforha.Monitor.Status.{
  Report, applied, merge, read_report, apply_status, is_old, is_other, terminal_target, is_terminal,
}
use doorfastforha.Monitor.CallStatus.{apply_call_status}
use doorfastforha.Monitor.Schedule.{
  Op, apply, run, requests, registers, registers_provisional, reports, begins_start, adopts_start,
  terminates, waits,
}
use doorfastforha.Monitor.Fence.{Yields, begin_terminal-lease_owned, begin_terminal-apply}
use doorfastforha.Monitor.Leases.{Ascends, run-Ascends}
use doorfastforha.Monitor.Settled.{is_settled}
use doorfastforha.Monitor.Settled.Runs.{run-Settled}
use doorfastforha.Monitor.Reports.{apply_status-newer, apply_status-idempotent}
use doorfastforha.Monitor.Ends.{Ended, apply_status-Ended}
use doorfastforha.Monitor.Calls.{Proceeds, apply_call_status-Proceeds}

abbrev fresh : MonitorCoordinator
fresh = create "runtime-a" "gate_main" 0

-- Generation 7 is published.
abbrev publishing : MonitorCoordinator
publishing = record fresh {
  generation = some 7;
  state = "publishing";
  ready = true;
  status_revision = 3;
}

abbrev first_lease : MonitorLease
first_lease = record { generation = 7; lease_id = 1; epoch = 0; viewer_edge_enabled = true }

-- One viewer watches it.
abbrev viewing : MonitorCoordinator
viewing = record publishing { next_lease_id = 1; leases = (1, first_lease) ∷ [] }

-- The last viewer has left, and task 5 is to stop the generation.
abbrev in_grace : MonitorCoordinator
in_grace = record publishing { next_lease_id = 1; stop_task = some 5 }

abbrev started : Fields
started = field "generation" (int (pos 7)) (field "state" (str "publishing") end)

abbrev preempted : Fields
preempted =
    field "event" (str "monitor_preempted")
      (field "generation" (int (pos 7)) (field "status_revision" (int (pos 4)) end))

abbrev preemption : Report
preemption = record { merged = preempted; event = str "monitor_preempted"; revision = 4 }

abbrev stretches : List Op
stretches =
    requests (registers_provisional 0 7)
    ∷ requests (registers 0 7)
    ∷ waits 7
    ∷ reports 9 (dict preempted)
    ∷ requests (registers 0 7)
    ∷ []

abbrev beginnings : List Op
beginnings =
    requests (begins_start 0 9 0)
    ∷ requests (adopts_start 0 true 0 started)
    ∷ requests (registers 0 7)
    ∷ terminates false
    ∷ []

begin_terminal-lease_owned_example :
    lease_owned (run (begin_terminal false viewing).0 stretches).0 first_lease ≡ false
unfolding create lease_owned
begin_terminal-lease_owned_example =
    begin_terminal-lease_owned false viewing stretches first_lease refl

begin_terminal-apply_example :
    Yields
      (run (begin_terminal true viewing).0 stretches).0
      (requests (registers 0 7))
      (apply (run (begin_terminal true viewing).0 stretches).0 (requests (registers 0 7)))
unfolding create
begin_terminal-apply_example =
    begin_terminal-apply true viewing stretches (requests (registers 0 7)) refl (omega arith)

run-Ascends_example : Ascends 1 (run viewing stretches).1
run-Ascends_example = run-Ascends viewing stretches

run-Settled_example : is_settled (run fresh beginnings).0 ≡ true
run-Settled_example = run-Settled "runtime-a" "gate_main" 0 beginnings

apply_status-newer_example :
    (((apply_status 9 (dict preempted) viewing).1 ≡ applied)
      × (3 < (apply_status 9 (dict preempted) viewing).0.status_revision))
    ⊎ ((apply_status 9 (dict preempted) viewing).0 ≡ viewing)
unfolding merge
apply_status-newer_example = apply_status-newer 9 preempted viewing refl

apply_status-idempotent_example :
    (apply_status 9 (dict preempted) (apply_status 9 (dict preempted) viewing).0).0
    ≡ (apply_status 9 (dict preempted) viewing).0
unfolding merge
apply_status-idempotent_example = apply_status-idempotent 9 preempted viewing refl

apply_status-Ended_example :
    Ended viewing (apply_status 9 (dict preempted) viewing)
    × ((ops : List Op) (l : MonitorLease)
        → lease_owned viewing l ≡ true
        → lease_owned (run (apply_status 9 (dict preempted) viewing).0 ops).0 l ≡ false)
unfolding create read_report merge validate_identity is_old is_other terminal_target is_terminal
apply_status-Ended_example =
    apply_status-Ended 9 (dict preempted) viewing preemption 7 refl refl refl refl refl

-- The second viewer.
abbrev second_lease : MonitorLease
second_lease = record { generation = 7; lease_id = 2; epoch = 0; viewer_edge_enabled = true }

abbrev rejoined : MonitorCoordinator
rejoined = record in_grace { next_lease_id = 2; leases = (2, second_lease) ∷ [] }

abbrev calling : MonitorCoordinator
calling = record (create "0123456789abcdef" "gate_main" 0) {
  operation = some (record {
    runtime_id = "0123456789abcdef";
    station_id = some "gate_main";
    stage = "calling";
    timer = "none";
    error = "none";
    operation_id = 3;
    media_generation = 9;
    call_generation = 0;
    remaining_ms = 0;
  });
  call_state = "calling";
}

-- The bridge says that the call has ended.
abbrev ended_status : Fields
ended_status = field "runtime_id" (str "0123456789abcdef") (
    field "station_call"
      (dict (
        field "stage" (str "ended") (
          field "timer" (str "none") (
            field "error" (str "none") (
              field "operation_id" (int (pos 3)) (
                field "media_generation" (int (pos 9)) (
                  field "call_generation" (int (pos 0)) (
                    field "remaining_ms" (int (pos 0))
                      (field "station_id" (str "gate_main") end)))))))))
      end)

apply_call_status-Proceeds_example :
    Proceeds calling (apply_call_status end none ended_status calling)
apply_call_status-Proceeds_example = apply_call_status-Proceeds end none ended_status calling
