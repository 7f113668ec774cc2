-- ===== src/Domain.antt =====
-- crates/machineemu-core/src/domain/mod.rs: identifiers and the lifecycle states of an instance.
-- A text that the code compares with literals is a `String`; an identifier under validation is the
-- list of its bytes.
pub mod Edges
pub mod Ids
pub mod States
mod Examples
use Prim.Native.String.{String}
use text.Mathlib.Text.{◌==◌}
use machineemu.Prelude.{
  ℕ, ◌≤◌, ◌≡◌, Bool, true, false, ◌&&◌, ◌||◌, List, [], ◌∷◌, length, leb, ◌==◌ as nat_eq,
  if◌then◌else◌, in_range,
}
use machineemu.Prelude.Result.{Result, ok, err}

pub data InstanceState : Type 0 where
  created starting running paused stopping stopped error : InstanceState

-- Paths, and the causes that other crates report, are left out.
pub data Error : Type 0 where
  workspace_not_directory : Error
  workspace_locked : Error
  sqlite : Error
  manifest_json : Error
  image_conflict : String → Error
  invalid_snapshot_component : String → Error
  invalid_bundle_path : String → Error
  bundle_exists : Error
  digest_mismatch : String → String → Error
  executable_not_found : String → Error
  spawn : String → Error
  invalid_id : String → List ℕ → Error
  invalid_transition : String → String → Error
  not_found : String → String → Error
  operation_conflict : String → Error
  run_conflict : String → Error
  active_run : String → Error
  snapshot_requires_stopped : Error
  snapshot_conflict : String → Error
  io : Error
  qmp : String → Error
  process : String → Error

-- `u8::is_ascii_lowercase`, `u8::is_ascii_digit`, and the three other bytes of an identifier.
abbrev pub is_lowercase : ℕ → Bool
is_lowercase byte = leb b'a' byte && leb byte b'z'

abbrev pub is_id_byte : ℕ → Bool
is_id_byte byte =
    is_lowercase byte
    || (leb b'0' byte && leb byte b'9')
    || (nat_eq byte b'.' || nat_eq byte b'_' || nat_eq byte b'-')

unfoldable pub all_id_bytes : List ℕ → Bool
all_id_bytes [] = true
all_id_bytes (byte ∷ rest) = is_id_byte byte && all_id_bytes rest

unfoldable pub is_valid_id : List ℕ → Bool
unfolding all_id_bytes
is_valid_id [] = false
is_valid_id (first ∷ rest) =
    leb (length (first ∷ rest)) 64 && is_lowercase first && all_id_bytes (first ∷ rest)

-- `Id::new`.
unfoldable pub new_id : String → List ℕ → Result Error (List ℕ)
unfolding is_valid_id
new_id kind value = if is_valid_id value then ok value else err (invalid_id kind value)

unfoldable pub as_str : InstanceState → String
as_str created = "created"
as_str starting = "starting"
as_str running = "running"
as_str paused = "paused"
as_str stopping = "stopping"
as_str stopped = "stopped"
as_str error = "error"

-- The transition table.
unfoldable pub allows : InstanceState → InstanceState → Bool
allows created starting = true
allows stopped starting = true
allows error starting = true
allows starting running = true
allows starting paused = true
allows starting error = true
allows running paused = true
allows running stopping = true
allows running error = true
allows paused running = true
allows paused stopping = true
allows paused error = true
allows stopping stopped = true
allows stopping error = true
allows _ _ = false

unfoldable pub from_qmp : String → Result Error InstanceState
from_qmp status =
    if status == "running"
    then ok running
    else if (status == "paused") || (status == "prelaunch")
    then ok paused
    else err (qmp "unsupported QEMU status")

-- `InstanceState::from_str`.
unfoldable pub from_str : String → Result Error InstanceState
from_str value =
    if value == "created"
    then ok created
    else if value == "starting"
    then ok starting
    else if value == "running"
    then ok running
    else if value == "paused"
    then ok paused
    else if value == "stopping"
    then ok stopping
    else if value == "stopped"
    then ok stopped
    else if value == "error"
    then ok error
    else err (process "unknown instance state")
