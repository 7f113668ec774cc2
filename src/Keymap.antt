-- ===== src/Keymap.antt =====
-- crates/machineemu-viewer/src/keymap.rs: the QEMU key code of a physical key. KeyCode has the keys
-- that the source names; `other` stands for the rest of the window library's key codes.
pub mod Codes
mod Examples
use machineemu.Prelude.{ℕ, Option, none, some}

pub data KeyCode : Type 0 where
  escape digit1 digit2 digit3 digit4 digit5 digit6 digit7 digit8 digit9 digit0 minus equal : KeyCode
  backspace tab key_q key_w key_e key_r key_t key_y key_u key_i key_o key_p bracket_left : KeyCode
  bracket_right enter control_left key_a key_s key_d key_f key_g key_h key_j key_k key_l : KeyCode
  semicolon quote backquote shift_left backslash key_z key_x key_c key_v key_b key_n key_m : KeyCode
  comma period slash shift_right numpad_multiply alt_left space caps_lock f1 f2 f3 f4 f5 f6 :
      KeyCode
  f7 f8 f9 f10 num_lock scroll_lock numpad7 numpad8 numpad9 numpad_subtract numpad4 numpad5 :
      KeyCode
  numpad6 numpad_add numpad1 numpad2 numpad3 numpad0 numpad_decimal intl_backslash f11 f12 : KeyCode
  numpad_equal kana_mode intl_ro convert non_convert intl_yen numpad_comma : KeyCode
  media_track_previous media_track_next numpad_enter control_right audio_volume_mute : KeyCode
  media_play_pause media_stop audio_volume_down audio_volume_up numpad_divide print_screen : KeyCode
  alt_right pause home arrow_up page_up arrow_left arrow_right end arrow_down page_down : KeyCode
  insert delete super_left super_right context_menu power sleep wake_up : KeyCode
  other : ℕ → KeyCode

unfoldable pub qnum : KeyCode → Option ℕ
qnum escape = some 0x01
qnum digit1 = some 0x02
qnum digit2 = some 0x03
qnum digit3 = some 0x04
qnum digit4 = some 0x05
qnum digit5 = some 0x06
qnum digit6 = some 0x07
qnum digit7 = some 0x08
qnum digit8 = some 0x09
qnum digit9 = some 0x0a
qnum digit0 = some 0x0b
qnum minus = some 0x0c
qnum equal = some 0x0d
qnum backspace = some 0x0e
qnum tab = some 0x0f
qnum key_q = some 0x10
qnum key_w = some 0x11
qnum key_e = some 0x12
qnum key_r = some 0x13
qnum key_t = some 0x14
qnum key_y = some 0x15
qnum key_u = some 0x16
qnum key_i = some 0x17
qnum key_o = some 0x18
qnum key_p = some 0x19
qnum bracket_left = some 0x1a
qnum bracket_right = some 0x1b
qnum enter = some 0x1c
qnum control_left = some 0x1d
qnum key_a = some 0x1e
qnum key_s = some 0x1f
qnum key_d = some 0x20
qnum key_f = some 0x21
qnum key_g = some 0x22
qnum key_h = some 0x23
qnum key_j = some 0x24
qnum key_k = some 0x25
qnum key_l = some 0x26
qnum semicolon = some 0x27
qnum quote = some 0x28
qnum backquote = some 0x29
qnum shift_left = some 0x2a
qnum backslash = some 0x2b
qnum key_z = some 0x2c
qnum key_x = some 0x2d
qnum key_c = some 0x2e
qnum key_v = some 0x2f
qnum key_b = some 0x30
qnum key_n = some 0x31
qnum key_m = some 0x32
qnum comma = some 0x33
qnum period = some 0x34
qnum slash = some 0x35
qnum shift_right = some 0x36
qnum numpad_multiply = some 0x37
qnum alt_left = some 0x38
qnum space = some 0x39
qnum caps_lock = some 0x3a
qnum f1 = some 0x3b
qnum f2 = some 0x3c
qnum f3 = some 0x3d
qnum f4 = some 0x3e
qnum f5 = some 0x3f
qnum f6 = some 0x40
qnum f7 = some 0x41
qnum f8 = some 0x42
qnum f9 = some 0x43
qnum f10 = some 0x44
qnum num_lock = some 0x45
qnum scroll_lock = some 0x46
qnum numpad7 = some 0x47
qnum numpad8 = some 0x48
qnum numpad9 = some 0x49
qnum numpad_subtract = some 0x4a
qnum numpad4 = some 0x4b
qnum numpad5 = some 0x4c
qnum numpad6 = some 0x4d
qnum numpad_add = some 0x4e
qnum numpad1 = some 0x4f
qnum numpad2 = some 0x50
qnum numpad3 = some 0x51
qnum numpad0 = some 0x52
qnum numpad_decimal = some 0x53
qnum intl_backslash = some 0x56
qnum f11 = some 0x57
qnum f12 = some 0x58
qnum numpad_equal = some 0x59
qnum kana_mode = some 0x70
qnum intl_ro = some 0x73
qnum convert = some 0x79
qnum non_convert = some 0x7b
qnum intl_yen = some 0x7d
qnum numpad_comma = some 0x7e
qnum media_track_previous = some 0x90
qnum media_track_next = some 0x99
qnum numpad_enter = some 0x9c
qnum control_right = some 0x9d
qnum audio_volume_mute = some 0xa0
qnum media_play_pause = some 0xa2
qnum media_stop = some 0xa4
qnum audio_volume_down = some 0xae
qnum audio_volume_up = some 0xb0
qnum numpad_divide = some 0xb5
qnum print_screen = some 0xb7
qnum alt_right = some 0xb8
qnum pause = some 0xc6
qnum home = some 0xc7
qnum arrow_up = some 0xc8
qnum page_up = some 0xc9
qnum arrow_left = some 0xcb
qnum arrow_right = some 0xcd
qnum end = some 0xcf
qnum arrow_down = some 0xd0
qnum page_down = some 0xd1
qnum insert = some 0xd2
qnum delete = some 0xd3
qnum super_left = some 0xdb
qnum super_right = some 0xdc
qnum context_menu = some 0xdd
qnum power = some 0xde
qnum sleep = some 0xdf
qnum wake_up = some 0xe3
qnum (other code) = none
