-- ===== src/Keymap/Codes.antt =====
-- crates/machineemu-viewer/src/keymap.rs: the key codes of the named keys.
use machineemu.Prelude.{
  ℕ, ◌≡◌, ◌<◌, ◌≢◌, ◌%◌, refl, Bool, true, ◌&&◌, not, Option, none, some, ltb, ◌==◌, arith,
  if◌then◌else◌,
}
use machineemu.Keymap.{
  KeyCode, escape, digit1, digit2, digit3, digit4, digit5, digit6, digit7, digit8, digit9, digit0,
  minus, equal, backspace, tab, key_q, key_w, key_e, key_r, key_t, key_y, key_u, key_i, key_o,
  key_p, bracket_left, bracket_right, enter, control_left, key_a, key_s, key_d, key_f, key_g, key_h,
  key_j, key_k, key_l, semicolon, quote, backquote, shift_left, backslash, key_z, key_x, key_c,
  key_v, key_b, key_n, key_m, comma, period, slash, shift_right, numpad_multiply, alt_left, space,
  caps_lock, f1, f2, f3, f4, f5, f6, f7, f8, f9, f10, num_lock, scroll_lock, numpad7, numpad8,
  numpad9, numpad_subtract, numpad4, numpad5, numpad6, numpad_add, numpad1, numpad2, numpad3,
  numpad0, numpad_decimal, intl_backslash, f11, f12, numpad_equal, kana_mode, intl_ro, convert,
  non_convert, intl_yen, numpad_comma, media_track_previous, media_track_next, numpad_enter,
  control_right, audio_volume_mute, media_play_pause, media_stop, audio_volume_down,
  audio_volume_up, numpad_divide, print_screen, alt_right, pause, home, arrow_up, page_up,
  arrow_left, arrow_right, end, arrow_down, page_down, insert, delete, super_left, super_right,
  context_menu, power, sleep, wake_up, other, qnum,
}

-- The key of a code.
unfoldable key_of : ℕ → Option KeyCode
key_of n =
    if n == 0x01
    then some escape
    else if n == 0x02
    then some digit1
    else if n == 0x03
    then some digit2
    else if n == 0x04
    then some digit3
    else if n == 0x05
    then some digit4
    else if n == 0x06
    then some digit5
    else if n == 0x07
    then some digit6
    else if n == 0x08
    then some digit7
    else if n == 0x09
    then some digit8
    else if n == 0x0a
    then some digit9
    else if n == 0x0b
    then some digit0
    else if n == 0x0c
    then some minus
    else if n == 0x0d
    then some equal
    else if n == 0x0e
    then some backspace
    else if n == 0x0f
    then some tab
    else if n == 0x10
    then some key_q
    else if n == 0x11
    then some key_w
    else if n == 0x12
    then some key_e
    else if n == 0x13
    then some key_r
    else if n == 0x14
    then some key_t
    else if n == 0x15
    then some key_y
    else if n == 0x16
    then some key_u
    else if n == 0x17
    then some key_i
    else if n == 0x18
    then some key_o
    else if n == 0x19
    then some key_p
    else if n == 0x1a
    then some bracket_left
    else if n == 0x1b
    then some bracket_right
    else if n == 0x1c
    then some enter
    else if n == 0x1d
    then some control_left
    else if n == 0x1e
    then some key_a
    else if n == 0x1f
    then some key_s
    else if n == 0x20
    then some key_d
    else if n == 0x21
    then some key_f
    else if n == 0x22
    then some key_g
    else if n == 0x23
    then some key_h
    else if n == 0x24
    then some key_j
    else if n == 0x25
    then some key_k
    else if n == 0x26
    then some key_l
    else if n == 0x27
    then some semicolon
    else if n == 0x28
    then some quote
    else if n == 0x29
    then some backquote
    else if n == 0x2a
    then some shift_left
    else if n == 0x2b
    then some backslash
    else if n == 0x2c
    then some key_z
    else if n == 0x2d
    then some key_x
    else if n == 0x2e
    then some key_c
    else if n == 0x2f
    then some key_v
    else if n == 0x30
    then some key_b
    else if n == 0x31
    then some key_n
    else if n == 0x32
    then some key_m
    else if n == 0x33
    then some comma
    else if n == 0x34
    then some period
    else if n == 0x35
    then some slash
    else if n == 0x36
    then some shift_right
    else if n == 0x37
    then some numpad_multiply
    else if n == 0x38
    then some alt_left
    else if n == 0x39
    then some space
    else if n == 0x3a
    then some caps_lock
    else if n == 0x3b
    then some f1
    else if n == 0x3c
    then some f2
    else if n == 0x3d
    then some f3
    else if n == 0x3e
    then some f4
    else if n == 0x3f
    then some f5
    else if n == 0x40
    then some f6
    else if n == 0x41
    then some f7
    else if n == 0x42
    then some f8
    else if n == 0x43
    then some f9
    else if n == 0x44
    then some f10
    else if n == 0x45
    then some num_lock
    else if n == 0x46
    then some scroll_lock
    else if n == 0x47
    then some numpad7
    else if n == 0x48
    then some numpad8
    else if n == 0x49
    then some numpad9
    else if n == 0x4a
    then some numpad_subtract
    else if n == 0x4b
    then some numpad4
    else if n == 0x4c
    then some numpad5
    else if n == 0x4d
    then some numpad6
    else if n == 0x4e
    then some numpad_add
    else if n == 0x4f
    then some numpad1
    else if n == 0x50
    then some numpad2
    else if n == 0x51
    then some numpad3
    else if n == 0x52
    then some numpad0
    else if n == 0x53
    then some numpad_decimal
    else if n == 0x56
    then some intl_backslash
    else if n == 0x57
    then some f11
    else if n == 0x58
    then some f12
    else if n == 0x59
    then some numpad_equal
    else if n == 0x70
    then some kana_mode
    else if n == 0x73
    then some intl_ro
    else if n == 0x79
    then some convert
    else if n == 0x7b
    then some non_convert
    else if n == 0x7d
    then some intl_yen
    else if n == 0x7e
    then some numpad_comma
    else if n == 0x90
    then some media_track_previous
    else if n == 0x99
    then some media_track_next
    else if n == 0x9c
    then some numpad_enter
    else if n == 0x9d
    then some control_right
    else if n == 0xa0
    then some audio_volume_mute
    else if n == 0xa2
    then some media_play_pause
    else if n == 0xa4
    then some media_stop
    else if n == 0xae
    then some audio_volume_down
    else if n == 0xb0
    then some audio_volume_up
    else if n == 0xb5
    then some numpad_divide
    else if n == 0xb7
    then some print_screen
    else if n == 0xb8
    then some alt_right
    else if n == 0xc6
    then some pause
    else if n == 0xc7
    then some home
    else if n == 0xc8
    then some arrow_up
    else if n == 0xc9
    then some page_up
    else if n == 0xcb
    then some arrow_left
    else if n == 0xcd
    then some arrow_right
    else if n == 0xcf
    then some end
    else if n == 0xd0
    then some arrow_down
    else if n == 0xd1
    then some page_down
    else if n == 0xd2
    then some insert
    else if n == 0xd3
    then some delete
    else if n == 0xdb
    then some super_left
    else if n == 0xdc
    then some super_right
    else if n == 0xdd
    then some context_menu
    else if n == 0xde
    then some power
    else if n == 0xdf
    then some sleep
    else if n == 0xe3
    then some wake_up
    else none

unfoldable key_back : Option ℕ → Option KeyCode
unfolding key_of
key_back none = none
key_back (some n) = key_of n

abbrev named : KeyCode → Option KeyCode
named (other code) = none
named k = some k

key_back-qnum : (k : KeyCode) → key_back (qnum k) ≡ named k
unfolding key_back qnum
key_back-qnum (other code) = refl
key_back-qnum k = refl

named_if : (k : KeyCode) (n : ℕ) → qnum k ≡ some n → named k ≡ some k
unfolding qnum
named_if (other code) n h = absurd (cc h)
named_if k n h = refl

-- Not zero in the low seven bits, and at most eight bits.
abbrev is_code : Option ℕ → Bool
is_code none = true
is_code (some n) = ltb n 256 && not ((n % 128) == 0)

qnum-is_code : (k : KeyCode) → is_code (qnum k) ≡ true
unfolding qnum
qnum-is_code (other code) = refl
qnum-is_code k = refl

same_key : {a b : KeyCode} → ◌≡◌ {A = Option KeyCode} (some a) (some b) → a ≡ b
same_key h = cc h

code_range : (n : ℕ) → is_code (some n) ≡ true → (n < 256) × (n % 128 ≢ 0)
code_range n h = (ground arith, λ e. ground arith)

-- Two keys that have a code have the same one only if they are the same key. A code is below 256,
-- and its low seven bits, the scan code without the mark of the prefix, are not zero.
pub qnum-injective :
    (a b : KeyCode) (n : ℕ)
    → qnum a ≡ some n
    → qnum b ≡ some n
    → (a ≡ b) × (n < 256) × (n % 128 ≢ 0)
qnum-injective a b n ha hb =
    let from_a = key_back-qnum a in
    let from_b = key_back-qnum b in
    let named_a = named_if a n ha in
    let named_b = named_if b n hb in
    let checked = qnum-is_code a in
    let (low, scan) = code_range n (let kept = rw ha at checked in kept) in
    (same_key (cc (from_a, from_b, named_a, named_b, ha, hb)), low, scan)
