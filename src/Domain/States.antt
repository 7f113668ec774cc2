-- ===== src/Domain/States.antt =====
-- crates/machineemu-core/src/domain/mod.rs: the texts of the lifecycle states, and the states that
-- QMP reports against the transition table.
use machineemu.Prelude.{◌≡◌, refl, true, String, eq_iff, arith}
use machineemu.Prelude.Result.{ok}
use machineemu.Domain.{InstanceState, created, starting, as_str, from_str, from_qmp, allows}

-- A state is read back from its text, and no other text reads as it.
pub from_str-as_str : (s : InstanceState) → from_str (as_str s) ≡ ok s
unfolding from_str as_str
from_str-as_str created = refl
from_str-as_str s = refl

pub as_str-from_str : (v : String) (s : InstanceState) → from_str v ≡ ok s → as_str s ≡ v
unfolding from_str as_str
as_str-from_str v s h = ground (
  arith,
  eq_iff v "created",
  eq_iff v "starting",
  eq_iff v "running",
  eq_iff v "paused",
  eq_iff v "stopping",
  eq_iff v "stopped",
  eq_iff v "error",
)

-- QEMU's first status is always a state that a starting instance may enter.
pub from_qmp-allowed :
    (v : String) (s : InstanceState) → from_qmp v ≡ ok s → allows starting s ≡ true
unfolding from_qmp allows
from_qmp-allowed v s h = ground arith
