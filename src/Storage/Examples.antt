-- ===== src/Storage/Examples.antt =====
-- The theorems on the tables at a small workspace.
use text.Mathlib.Text.{◌==◌}
use machineemu.Prelude.{ℕ, ◌≡◌, refl, Bool, true, ◌&&◌, String, some, List, [], ◌∷◌, if◌then◌else◌}
use machineemu.Prelude.Result.{ok, err}
use machineemu.Domain.{stopping, stopped, as_str, operation_conflict, active_run as still_active}
use machineemu.Storage.Table.{find, delete, select}
use machineemu.Storage.Schema.{Instance, Run, Operation, Db}
use machineemu.Storage.Instances.{
  instance_key, run_key, newest, is_active, active_run, set_status, instance_row,
}
use machineemu.Storage.Instances.Requests.{transition_all, Walk, Requested, transition_all-Walk}
use machineemu.Storage.Operations.{new_operation, begin_operation}
use machineemu.Storage.Operations.Idempotent.{begin-answered}
use machineemu.Storage.Removal.{finish_instance_deletion, remove_instance}
use machineemu.Storage.Removal.Gone.{IsGone, remove-IsGone}
use machineemu.Storage.Removal.Refused.{remove_live}
use machineemu.Storage.Commands.{empty_db}

abbrev box : Instance
box = record {
  instance_id = "box";
  image_id = "debian";
  profile_id = "small";
  state = stopping;
  revision = 3;
}

abbrev run_one : Run
run_one = record {
  run_id = "run-1";
  owner = "box";
  pid = 77;
  process_start = 5;
  qmp_socket = "qmp.sock";
  status = "running";
  created_at = 9;
}

abbrev workspace : Db
workspace = record empty_db { instances = box ∷ []; runs = run_one ∷ [] }

-- The instance has stopped, and its run is closed.
abbrev idle : Db
idle = record empty_db {
  instances = record box { state = stopped } ∷ [];
  runs = record run_one { status = "exited" } ∷ [];
}

abbrev all_alive : ℕ → ℕ → Bool
all_alive pid start = true

abbrev cleaned : String → Bool
cleaned id = true

abbrev plain : String → String
plain input = input

found_box : find instance_key "box" workspace.instances ≡ some box
unfolding find
found_box = refl

abbrev requests : List String
requests = "paused" ∷ "stopped" ∷ "asleep" ∷ "starting" ∷ []

transition_all-Walk_example :
    (last : Instance) × Walk box requests (transition_all "box" requests workspace).0 last
    × Requested "box" last workspace (transition_all "box" requests workspace).1
transition_all-Walk_example = transition_all-Walk "box" requests box workspace found_box

abbrev start_row : Operation
start_row = new_operation "op-1" "box" "start" "key-1" "{}"

first_begun : (begin_operation plain "op-1" "box" "start" "key-1" "{}" workspace).0 ≡ ok start_row
unfolding begin_operation instance_row find
first_begun = refl

begin-answered_example :
    begin_operation plain "op-2" "box" "stop" "key-1" "{}"
      (begin_operation plain "op-1" "box" "start" "key-1" "{}" workspace).1
    ≡ (
      if ("start" == "stop") && ("{}" == "{}")
          then ok start_row
          else err (operation_conflict "key-1"),
      (begin_operation plain "op-1" "box" "start" "key-1" "{}" workspace).1,
    )
begin-answered_example =
    begin-answered plain "op-1" "op-2" "box" "start" "stop" "key-1" "{}" "{}" workspace start_row
      first_begun

idle_removed : (remove_instance cleaned all_alive "box" idle).0 ≡ ok tt
unfolding remove_instance instance_row find select delete newest finish_instance_deletion active_run
    as_str
idle_removed = refl

remove-IsGone_example : IsGone "box" (remove_instance cleaned all_alive "box" idle).1
remove-IsGone_example = remove-IsGone cleaned all_alive "box" idle refl idle_removed

live_run_one :
    newest (select (λ r. (r.owner == "box") && is_active r) workspace.runs) ≡ some run_one
unfolding newest select
live_run_one = refl

found_run_one : find run_key "run-1" workspace.runs ≡ some run_one
unfolding find
found_run_one = refl

remove_live_example :
    remove_instance cleaned all_alive "box" workspace
    ≡ (err (still_active "box"), set_status "run-1" "running" workspace)
remove_live_example =
    remove_live cleaned all_alive "box" box run_one workspace refl found_box live_run_one
      found_run_one refl
