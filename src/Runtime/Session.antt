-- ===== src/Runtime/Session.antt =====
-- What the modelled code does to the tables of a workspace, as one type of events: the calls of
-- crates/machineemu-core/src/storage and crates/machineemu-core/src/runtime/lifecycle_async.rs, and
-- what crates/machineemu/src/api/run_events.rs does for a run.
use machineemu.Prelude.{Bool, String, List, [], ◌∷◌}
use machineemu.Prelude.Result.{Result}
use machineemu.Domain.{Error}
use machineemu.Storage.Schema.{Run, Db}
use machineemu.Storage.Commands.{Command, World, execute}
use machineemu.Runtime.{
  StartRequest, Launch, start_instance, pause_instance, resume_instance, reset_instance, Process,
  stop_instance, recover_instance_run,
}
use machineemu.Watcher.{Connection, Disposal, watch_round, apply_status, apply_qmp}

pub data Event : Type 0 where
  stored : Command → Event
  start : StartRequest → Launch → Event
  pause : String → Result Error (Unit {0}) → Event
  resume : String → Result Error (Unit {0}) → Event
  reset : String → Result Error (Unit {0}) → Event
  stop : String → String → Result Error (Unit {0}) → Process → Event
  recover : String → Result Error String → Event
  watch : Disposal → Run → Result Error Connection → Bool → Event
  report_status : Run → Result Error Connection → String → Event
  report_event : Run → Result Error Connection → String → Event

-- The texts of errors and of states, as JSON objects.
pub record Texts : Type 0 where
  pub reason : Error → String
  pub state_json : String → String

unfoldable pub perform : Texts → World → Event → Db → Db
perform t w (stored c) db = execute w c db
perform t w (start q l) db = (start_instance w.alive w.digest t.reason t.state_json q l db).1
perform t w (pause id answer) db = (pause_instance id answer db).1
perform t w (resume id answer) db = (resume_instance id answer db).1
perform t w (reset id answer) db = (reset_instance id answer db).1
perform t w (stop id run_id quit owner) db = (stop_instance id run_id quit owner db).1
perform t w (recover id observed) db = (recover_instance_run w.alive id observed db).1
perform t w (watch disposal run connection torn_down) db =
    (watch_round w.cleanup w.alive disposal run connection torn_down db).1
perform t w (report_status run connection status) db =
    (apply_status w.alive run connection status db).1
perform t w (report_event run connection name) db = (apply_qmp w.alive run connection name db).1

-- What is outside may change between two events.
unfoldable pub perform_all : Texts → List (World × Event) → Db → Db
unfolding perform
perform_all t [] db = db
perform_all t ((w, e) ∷ rest) db = perform_all t rest (perform t w e db)
