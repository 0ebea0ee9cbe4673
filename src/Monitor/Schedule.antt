-- ===== src/Monitor/Schedule.antt =====
-- custom_components/doorfast/monitor.py: any interleaving of the stretches of `MonitorCoordinator`'s
-- operations. An operation carries what its earlier stretches have read, and here any values of it: so
-- every schedule of concurrent tasks, with any cancellation, is a list of these.
use doorfastforha.Prelude.{ℕ, Bool, List, [], ◌∷◌, Option, none, some}
use doorfastforha.Value.{Value, Fields}
use doorfastforha.Monitor.{
  MonitorCoordinator, MonitorLease, Answer, returned, raised, begin_terminal, or_else,
}
use doorfastforha.Monitor.Lifecycle.{start_begin, start_failed, start_adopt}
use doorfastforha.Monitor.Recovery.{recover_stopped, recover_start, recover_adopt}
use doorfastforha.Monitor.Acquire.{
  acquire_admit, wait_ready, acquire_end, acquire_failed, cleanup_end,
}
use doorfastforha.Monitor.Register.{
  register_provisional, register_rollback, register_failed, register_end,
}
use doorfastforha.Monitor.Release.{
  release_begin, release_failed, release_end, grace_over, stop_begin, stop_end,
}
use doorfastforha.Monitor.Status.{apply_status}
use doorfastforha.Monitor.Call.{
  Reply, Conditions, call_begin, call_end, hangup_begin, hangup_reply, hangup_end,
}
use doorfastforha.Monitor.CallStatus.{apply_call_status}

-- A stretch of a request for a generation or a viewer that tests the request's epoch, which is the
-- first number. The other stretches of requests, such as the undoing of a viewer edge, test none or
-- belong to no epoch, and are among the operations below.
pub data Stretch : Type 0 where
  begins_start : ℕ → ℕ → ℕ → Stretch
  adopts_start : ℕ → Bool → ℕ → Fields → Stretch
  leaves_recovered : ℕ → ℕ → Stretch
  begins_recovery : ℕ → ℕ → Stretch
  adopts_recovery : ℕ → Bool → ℕ → Fields → Stretch
  is_admitted : ℕ → ℕ → Stretch
  cleans_up : ℕ → ℕ → Stretch
  registers_provisional : ℕ → ℕ → Stretch
  registers : ℕ → ℕ → Stretch

-- `self._request_epoch` of the request.
abbrev pub epoch_of : Stretch → ℕ
epoch_of (begins_start e task old) = e
epoch_of (adopts_start e pending old response) = e
epoch_of (leaves_recovered e stopping) = e
epoch_of (begins_recovery e old) = e
epoch_of (adopts_recovery e pending old response) = e
epoch_of (is_admitted e task) = e
epoch_of (cleans_up e g) = e
epoch_of (registers_provisional e g) = e
epoch_of (registers e g) = e

abbrev pub leased :
    MonitorCoordinator × Answer MonitorLease → MonitorCoordinator × Option MonitorLease
leased (m, returned l) = (m, some l)
leased (m, raised f) = (m, none)

unfoldable pub advance : MonitorCoordinator → Stretch → MonitorCoordinator × Option MonitorLease
advance m (begins_start e task old) = ((start_begin task e old m).0, none)
advance m (adopts_start e pending old response) = ((start_adopt pending e old response m).0, none)
advance m (leaves_recovered e stopping) = ((recover_stopped e stopping m).0, none)
advance m (begins_recovery e old) = ((recover_start e old m).0, none)
advance m (adopts_recovery e pending old response) =
    ((recover_adopt pending e old response m).0, none)
advance m (is_admitted e task) = ((acquire_admit e task m).0, none)
advance m (cleans_up e g) = (cleanup_end g e m, none)
advance m (registers_provisional e g) = leased (register_provisional g e m)
advance m (registers e g) = leased (register_end g e m)

-- Any stretch: one of a request that tests its epoch, another of a request (up to `fails_viewer`), or
-- one of another operation.
pub data Op : Type 0 where
  requests : Stretch → Op
  fails_start : Op
  waits : ℕ → Op
  ends_request : ℕ → ℕ → Op
  fails_request : ℕ → ℕ → Option ℕ → Op
  rolls_back : ℕ → Op
  fails_viewer : ℕ → Op
  begins_release : ℕ → MonitorLease → Op
  fails_release : ℕ → MonitorLease → Op
  ends_release : ℕ → ℕ → Op
  ends_grace : ℕ → Op
  begins_stop : ℕ → Option ℕ → Op
  ends_stop : Bool → ℕ → ℕ → Option Fields → Op
  terminates : Bool → Op
  reports : ℕ → Value → Op
  begins_call : Value → Value → Value → Fields → Op
  ends_call : ℕ → Reply → Fields → Op
  begins_hangup : Value → Fields → Op
  hangup_replies : ℕ → Reply → Fields → Op
  ends_hangup : Conditions → Fields → Op
  reports_call : Fields → Option ℕ → Fields → Op

unfoldable pub apply : MonitorCoordinator → Op → MonitorCoordinator × Option MonitorLease
apply m (requests s) = advance m s
apply m fails_start = (start_failed m, none)
apply m (waits g) = ((wait_ready g m).0, none)
apply m (ends_request e task) = (acquire_end e task m, none)
apply m (fails_request e task g) = ((acquire_failed e task g m).0, none)
apply m (rolls_back g) = (register_rollback g m, none)
apply m (fails_viewer g) = (register_failed g m, none)
apply m (begins_release task lease) = ((release_begin task lease m).0, none)
apply m (fails_release g lease) = (release_failed g lease m, none)
apply m (ends_release g task) = (release_end g task m, none)
apply m (ends_grace task) = (grace_over task m, none)
apply m (begins_stop task asked) = ((stop_begin task asked m).0, none)
apply m (ends_stop terminal active epoch reply) = ((stop_end terminal active epoch reply m).0, none)
apply m (terminates unload) = ((begin_terminal unload m).0, none)
apply m (reports task payload) = ((apply_status task payload m).0, none)
apply m (begins_call primary secondary duration client) =
    ((call_begin primary secondary duration client m).0, none)
apply m (ends_call epoch reply client) = ((call_end epoch reply client m).0, none)
apply m (begins_hangup reason client) = ((hangup_begin reason client m).0, none)
apply m (hangup_replies epoch reply client) = ((hangup_reply epoch reply client m).0, none)
apply m (ends_hangup c d) = (hangup_end c d m, none)
apply m (reports_call client epoch status) =
    (or_else (apply_call_status client epoch status m) m, none)

abbrev pub prepend :
    Option MonitorLease
    → MonitorCoordinator × List MonitorLease
    → MonitorCoordinator × List MonitorLease
prepend none r = r
prepend (some l) (m, ls) = (m, l ∷ ls)

-- The coordinator after the stretches, and all leases handed out, in order.
unfoldable pub run : MonitorCoordinator → List Op → MonitorCoordinator × List MonitorLease
run m [] = (m, [])
run m (op ∷ ops) = prepend (apply m op).1 (run (apply m op).0 ops)
