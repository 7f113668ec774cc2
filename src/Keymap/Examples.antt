-- ===== src/Keymap/Examples.antt =====
-- The key map at concrete keys.
use machineemu.Prelude.{◌≡◌, ◌<◌, ◌≢◌, ◌%◌, refl, some}
use machineemu.Keymap.{numpad_enter, qnum}
use machineemu.Keymap.Codes.{qnum-injective}

enter_code : qnum numpad_enter ≡ some 0x9c
unfolding qnum
enter_code = refl

qnum-injective_example : (numpad_enter ≡ numpad_enter) × (0x9c < 256) × (0x9c % 128 ≢ 0)
qnum-injective_example = qnum-injective numpad_enter numpad_enter 0x9c enter_code enter_code
