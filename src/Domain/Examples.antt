-- ===== src/Domain/Examples.antt =====
-- The theorems on identifiers and states at concrete texts.
use machineemu.Prelude.{ℕ, ◌≤◌, ◌<◌, ◌≡◌, ◌≢◌, refl, true, List, [], ◌∷◌, length, All}
use machineemu.Prelude.Result.{ok}
use machineemu.Domain.{starting, paused, new_id, as_str, from_str, from_qmp, allows}
use machineemu.Domain.Ids.{new_id-safe}
use machineemu.Domain.States.{from_str-as_str, as_str-from_str, from_qmp-allowed}

-- The bytes of `vm.1`.
abbrev vm_id : List ℕ
vm_id = b'v' ∷ b'm' ∷ b'.' ∷ b'1' ∷ []

vm_accepted : new_id "instance" vm_id ≡ ok vm_id
unfolding new_id
vm_accepted = refl

new_id-safe_example :
    (vm_id ≡ vm_id)
    × (0 < length vm_id)
    × (length vm_id ≤ 64)
    × All (λ b. b ≢ b'/') vm_id
    × (vm_id ≢ b'.' ∷ [])
    × (vm_id ≢ b'.' ∷ b'.' ∷ [])
new_id-safe_example = new_id-safe "instance" vm_id vm_id vm_accepted

paused_text : from_str "paused" ≡ ok paused
unfolding from_str
paused_text = refl

from_str-as_str_example : from_str (as_str paused) ≡ ok paused
from_str-as_str_example = from_str-as_str paused

as_str-from_str_example : as_str paused ≡ "paused"
as_str-from_str_example = as_str-from_str "paused" paused paused_text

prelaunch_status : from_qmp "prelaunch" ≡ ok paused
unfolding from_qmp
prelaunch_status = refl

from_qmp-allowed_example : allows starting paused ≡ true
from_qmp-allowed_example = from_qmp-allowed "prelaunch" paused prelaunch_status
