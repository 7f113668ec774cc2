-- ===== src/Runtime/Examples.antt =====
-- The theorems on the lifecycle calls at a small workspace.
use text.Mathlib.Text.{◌==◌}
use machineemu.Prelude.{none, ◌≡◌, refl, true, false, String, some, List, [], ◌∷◌}
use machineemu.Prelude.Result.{ok, err}
use machineemu.Domain.{created, paused, Error, qmp, as_str, from_str, allows}
use machineemu.Storage.Table.{find, update, insert}
use machineemu.Storage.Schema.{Instance, Run, Db}
use machineemu.Storage.Instances.{
  instance_key, run_key, enter, with_status, transition_instance, instance_row, record_run,
}
use machineemu.Storage.Commands.{publish, remove, upgrade, save_snapshot, World, empty_db}
use machineemu.Storage.Consistent.{IsConsistent}
use machineemu.Runtime.{StartRequest, Launch, launch_process, attempt, owned, stop_instance}
use machineemu.Runtime.Session.{Event, stored, start, pause, stop, Texts, perform_all}
use machineemu.Runtime.Consistent.Sessions.{perform_all-IsConsistent}
use machineemu.Runtime.Failure.{IsSettled}
use machineemu.Runtime.Failure.Records.{IsClosed, HasFailed, attempt-failed}
use machineemu.Runtime.Stop.{end_state, while_stopping, stop-result}

abbrev vm : Instance
vm = record {
  instance_id = "vm";
  image_id = "debian";
  profile_id = "small";
  state = paused;
  revision = 4;
}

abbrev vm_run : Run
vm_run = record {
  run_id = "run-7";
  owner = "vm";
  pid = 70;
  process_start = 11;
  qmp_socket = "qmp.sock";
  status = "running";
  created_at = 2;
}

abbrev paused_db : Db
paused_db = record empty_db { instances = vm ∷ []; runs = vm_run ∷ [] }

vm_found : find instance_key "vm" paused_db.instances ≡ some vm
unfolding find
vm_found = refl

vm_run_found : find run_key "run-7" paused_db.runs ≡ some vm_run
unfolding find
vm_run_found = refl

paused_stoppable : (as_str paused == "paused") ≡ true
unfolding as_str
paused_stoppable = refl

stop-result_example :
    ((stop_instance "vm" "run-7" (err (qmp "closed")) (owned (ok false)) paused_db).0
      ≡ ok (enter (end_state false) (while_stopping vm)))
    × (find instance_key "vm"
          (stop_instance "vm" "run-7" (err (qmp "closed")) (owned (ok false)) paused_db).1.instances
        ≡ some (enter (end_state false) (while_stopping vm)))
    × (find run_key "run-7"
          (stop_instance "vm" "run-7" (err (qmp "closed")) (owned (ok false)) paused_db).1.runs
        ≡ some (with_status "failed" vm_run))
unfolding as_str
stop-result_example =
    stop-result "vm" "run-7" (err (qmp "closed")) false vm vm_run paused_db refl vm_found
      vm_run_found

abbrev request : StartRequest
request = record {
  operation_id = "op-1";
  run_id = "run-8";
  instance_id = "vm";
  idempotency_key = "key-1";
  input_json = "{}";
  qmp_socket = "qmp.sock";
  complete = true;
}

abbrev vanished : Launch
vanished = record {
  now = 5;
  spawned = ok (80, 12);
  connected = err (qmp "connection refused");
  observed = ok "running";
  exited = ok true;
}

abbrev answered : Launch
answered = record vanished { connected = ok tt; exited = ok false }

abbrev as_text : Error → String
as_text e = "{}"

abbrev plain_state : String → String
plain_state state = state

abbrev created_db : Db
created_db = record empty_db { instances = record vm { state = created } ∷ [] }

connection_lost :
    (attempt as_text plain_state "op-1" request vanished created_db).0
    ≡ err (qmp "connection refused")
unfolding attempt transition_instance record_run instance_row find as_str from_str allows update
    insert
connection_lost = refl

attempt-failed_example :
    IsClosed "op-1" (attempt as_text plain_state "op-1" request vanished created_db).1
    × ((run : Run)
        → (launch_process request vanished created_db).0 ≡ ok run
        → HasFailed "run-8" (attempt as_text plain_state "op-1" request vanished created_db).1)
    × IsSettled "vm" (attempt as_text plain_state "op-1" request vanished created_db).1
attempt-failed_example =
    attempt-failed as_text plain_state "op-1" request vanished created_db (qmp "connection refused")
      connection_lost

abbrev outside : World
outside = record {
  alive = λ pid began. true;
  cleanup = λ id. true;
  staged = λ id image. true;
  digest = λ input. input;
  outcomes = record {
    saved = λ key. none;
    state_json = plain_state;
    reason_json = plain_state;
    sorted = λ rows. rows;
  };
}

abbrev texts : Texts
texts = record { reason = as_text; state_json = plain_state }

abbrev history : List (World × Event)
history =
    (outside, stored (publish "vm" "debian" "small"))
    ∷ (outside, start request answered)
    ∷ (outside, pause "vm" (ok tt))
    ∷ (outside, stop "vm" "run-8" (ok tt) (owned (ok true)))
    ∷ (outside, stored (upgrade "vm" (ok tt) (ok 9)))
    ∷ (outside, stored (remove "vm"))
    ∷ (outside, stored (publish "vm" "debian" "small"))
    ∷ (outside, stored (save_snapshot (ok tt) true "first" "vm"))
    ∷ (outside, stored (remove "vm"))
    ∷ []

perform_all-IsConsistent_example : IsConsistent (perform_all texts history empty_db)
perform_all-IsConsistent_example = perform_all-IsConsistent texts history
