-- ===== src/Display/Frame.antt =====
-- crates/display-stream/src/frame.rs: the BGRA framebuffer and the rectangle of pending damage.
pub mod Copied
pub mod Damage
pub mod Pixels
pub mod Preserved
pub mod Update
pub mod Wide
use machineemu.Prelude.{
  ℕ, zero, suc, ◌+◌, ◌-◌, ◌*◌, ◌^◌, ◌≤◌, ◌<◌, ◌≡◌, min, max, Bool, true, false, ◌||◌, not, Option,
  none, some, List, [], ◌∷◌, length, replicate, ltb, leb, ◌==◌, if◌then◌else◌, slice, write_slice,
}
use machineemu.Prelude.Int.{ℤ, is_negative, leb_ℤ, pos, pos_part}
use machineemu.Display.{
  FrameError, format, geometry, outside, short_data, Outcome, done, failed, panicked, ◌>>=◌,
  or_panic, or_fail, u32_mod, u64_mod, add_u32, sub_u32, mul_u32, checked_add_u32, checked_mul,
}

pub data PixelFormat : Type 0 where
  x8r8g8b8 a8r8g8b8 x8b8g8r8 a8b8g8r8 : PixelFormat

abbrev pub pixman_x8r8g8b8 : ℕ
pixman_x8r8g8b8 = 0x2002_0888

abbrev pub pixman_a8r8g8b8 : ℕ
pixman_a8r8g8b8 = 0x2002_8888

abbrev pub pixman_x8b8g8r8 : ℕ
pixman_x8b8g8r8 = 0x2003_0888

abbrev pub pixman_a8b8g8r8 : ℕ
pixman_a8b8g8r8 = 0x2003_8888

unfoldable pub from_pixman : ℕ → Option PixelFormat
from_pixman value =
    if value == pixman_x8r8g8b8
    then some x8r8g8b8
    else if value == pixman_a8r8g8b8
    then some a8r8g8b8
    else if value == pixman_x8b8g8r8
    then some x8b8g8r8
    else if value == pixman_a8b8g8r8
    then some a8b8g8r8
    else none

-- The DRM formats XR24, AR24, XB24 and AB24.
unfoldable pub pixman_from_fourcc : ℕ → Option ℕ
pixman_from_fourcc fourcc =
    if fourcc == 0x3432_5258
    then some pixman_x8r8g8b8
    else if fourcc == 0x3432_5241
    then some pixman_a8r8g8b8
    else if fourcc == 0x3432_4258
    then some pixman_x8b8g8r8
    else if fourcc == 0x3432_4241
    then some pixman_a8b8g8r8
    else none

-- Left and top edge, width and height.
pub record Rect : Type 0 where
  pub left : ℕ
  pub top : ℕ
  pub wide : ℕ
  pub high : ℕ

pub record Frame : Type 0 where
  pub width : ℕ
  pub height : ℕ
  pub pixels : List ℕ
  pub damage : Option Rect

-- The four-byte groups of a row, with the first and the third byte exchanged; `chunks_exact`
-- passes over a shorter rest.
unfoldable pub swap_red_blue : List ℕ → List ℕ
swap_red_blue (a ∷ b ∷ c ∷ d ∷ rest) = c ∷ b ∷ a ∷ d ∷ swap_red_blue rest
swap_red_blue rest = rest

unfoldable pub convert : PixelFormat → List ℕ → List ℕ
unfolding swap_red_blue
convert x8r8g8b8 source = source
convert a8r8g8b8 source = source
convert x8b8g8r8 source = swap_red_blue source
convert a8b8g8r8 source = swap_red_blue source

-- The geometry that the rows of one `copy_rect` share: the rectangle, the width of the frame that
-- it is written to, and the rows of the data.
pub record Copy : Type 0 where
  pub rect : Rect
  pub frame_width : ℕ
  pub stride : ℕ
  pub kind : PixelFormat

-- One round of the loop over `row`.
unfoldable pub copy_row : Copy → List ℕ → ℕ → List ℕ → Outcome (List ℕ)
unfolding convert
copy_row c bytes row pixels = do
  source ← or_panic (slice bytes (row * c.stride) (c.rect.wide * 4))
  let target_start = ((c.rect.top + row) * c.frame_width + c.rect.left) * 4
  target ← or_panic (slice pixels target_start (c.rect.wide * 4))
  or_panic (write_slice pixels target_start (convert c.kind source))

-- `for row in row..row + rounds`.
unfoldable pub copy_rows : Copy → List ℕ → ℕ → ℕ → List ℕ → Outcome (List ℕ)
copy_rows c bytes zero row pixels = done pixels
copy_rows c bytes (suc rounds) row pixels =
    copy_row c bytes row pixels >>= copy_rows c bytes rounds (suc row)

unfoldable pub copy_rect : Rect → ℕ → ℕ → List ℕ → Frame → Outcome Frame
unfolding from_pixman
copy_rect rect stride raw_format bytes f = do
  kind ← or_fail (from_pixman raw_format) (format raw_format)
  if ltb stride (mul_u32 rect.wide 4) || ltb (length bytes) (stride * rect.high)
      then failed short_data
      else do
        let c : Copy = record { rect = rect; frame_width = f.width; stride = stride; kind = kind }
        pixels ← copy_rows c bytes rect.high 0 f.pixels
        done (record f { pixels = pixels })

-- `vec![0; bytes]` panics above `isize::MAX` bytes. The other two `vec!` of these files have no more
-- bytes than a slice that is there, and no slice is longer than that.
abbrev pub isize_max : ℕ
isize_max = 2 ^ 63 - 1

unfoldable pub zeroed : ℕ → Outcome (List ℕ)
zeroed bytes = if ltb isize_max bytes then panicked else done (replicate bytes 0)

unfoldable pub empty : ℕ → ℕ → Outcome Frame
unfolding zeroed
empty width height = do
  area ← or_fail (checked_mul width height) geometry
  bytes ← or_fail (checked_mul area 4) geometry
  pixels ← zeroed bytes
  done (record { width = width; height = height; pixels = pixels; damage = none })

unfoldable pub scanout : ℕ → ℕ → ℕ → ℕ → List ℕ → Outcome Frame
scanout width height stride raw_format bytes = do
  blank ← empty width height
  let whole : Rect = record { left = 0; top = 0; wide = width; high = height }
  frame ← copy_rect whole stride raw_format bytes blank
  done (record frame { damage = some whole })

-- `a.checked_add(b).filter(|v| *v <= limit).is_some()`.
abbrev pub fits_within : ℕ → ℕ → ℕ → Bool
fits_within a b limit = elim (checked_add_u32 a b) [ none ↦ false | some v ↦ leb v limit ]

unfoldable pub merge_damage : Option Rect → Rect → Rect
merge_damage none new = new
merge_damage (some old) new =
    let right = max (add_u32 old.left old.wide) (add_u32 new.left new.wide) in
    let bottom = max (add_u32 old.top old.high) (add_u32 new.top new.high) in
    record {
      left = min old.left new.left;
      top = min old.top new.top;
      wide = sub_u32 right (min old.left new.left);
      high = sub_u32 bottom (min old.top new.top);
    }

unfoldable pub update : ℤ → ℤ → ℤ → ℤ → ℕ → ℕ → List ℕ → Frame → Outcome Frame
unfolding merge_damage
update x y width height stride raw_format bytes f =
    if is_negative x || is_negative y || leb_ℤ width (pos 0) || leb_ℤ height (pos 0)
    then failed outside
    else let rect : Rect = record {
      left = pos_part x;
      top = pos_part y;
      wide = pos_part width;
      high = pos_part height;
    } in
      if not (fits_within rect.left rect.wide f.width)
        || not (fits_within rect.top rect.high f.height)
      then failed outside
      else do
        f' ← copy_rect rect stride raw_format bytes f
        done (record f' { damage = some (merge_damage f'.damage rect) })

-- The damage, and the frame with it cleared.
unfoldable pub take_damage : Frame → Option Rect × Frame
take_damage f = (f.damage, record f { damage = none })
