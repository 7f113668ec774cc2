-- ===== src/Watcher/Examples.antt =====
-- The theorems on watchers and reports at concrete inputs.
use machineemu.Prelude.{ℕ, ◌≡◌, refl, Bool, true, false, some, [], ◌∷◌}
use machineemu.Prelude.Result.{ok}
use machineemu.Domain.{running}
use machineemu.Storage.Table.{find, select}
use machineemu.Storage.Schema.{Instance, Run, Db}
use machineemu.Storage.Instances.{instance_key, run_key, with_status, active_run, newest}
use machineemu.Storage.Commands.{empty_db}
use machineemu.Watcher.{this_run, no_owner, watch_round, apply_status, apply_qmp}
use machineemu.Watcher.Exit.{after_exit, watch_round-ended}
use machineemu.Watcher.Stale.{IsStale, apply-IsStale}

abbrev vm : Instance
vm = record {
  instance_id = "vm";
  image_id = "debian";
  profile_id = "q35";
  state = running;
  revision = 4;
}

abbrev vm_run : Run
vm_run = record {
  run_id = "run-7";
  owner = "vm";
  pid = 70;
  process_start = 11;
  qmp_socket = "qmp.sock";
  status = "running";
  created_at = 2;
}

-- The run before it.
abbrev old_run : Run
old_run = record vm_run { run_id = "run-6"; status = "exited"; created_at = 1 }

abbrev running_db : Db
running_db = record empty_db { instances = vm ∷ []; runs = old_run ∷ vm_run ∷ [] }

abbrev always : ℕ → ℕ → Bool
always pid start = true

watch_round-ended_example :
    (out : Db) × (watch_round
        (λ id. true)
        always
        (record { auto_remove = ok false; tombstone = ok tt })
        vm_run
        (ok (this_run (ok (some true))))
        true
        running_db
      ≡ (ok true, out))
    × (find instance_key "vm" out.instances ≡ some (after_exit true vm))
    × (find run_key "run-7" out.runs ≡ some (with_status "exited" vm_run))
watch_round-ended_example =
    watch_round-ended (λ id. true) always (ok tt) vm_run vm_run true vm running_db
      (unfold find in refl) refl (unfold find in refl)

old_run-IsStale : IsStale old_run running_db
old_run-IsStale = record {
  active = some vm_run;
  recorded = unfold active_run select newest in refl;
  other = refl;
}

apply-IsStale_example :
    (apply_status always old_run (ok no_owner) "STOP" running_db ≡ (ok tt, running_db))
    × (apply_qmp always old_run (ok no_owner) "STOP" running_db ≡ (ok tt, running_db))
apply-IsStale_example = apply-IsStale always old_run (ok no_owner) running_db "STOP" old_run-IsStale
