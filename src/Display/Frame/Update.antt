-- ===== src/Display/Frame/Update.antt =====
-- crates/display-stream/src/frame.rs: `update` on a well-formed frame, on every branch.
use machineemu.Prelude.{
  ℕ, ◌+◌, ◌-◌, ◌*◌, ◌<◌, ◌≡◌, inl, inr, refl, ◌∙◌, Bool, true, false, ◌||◌, not, Option, none, some,
  Bool-cases, List, length, get_elem?, if◌then◌else◌, in_range, ◌&&◌, arith,
}
use machineemu.Prelude.Int.{ℤ, pos, is_negative, leb_ℤ, pos_part}
use machineemu.Display.{FrameError, format, outside, short_data, Outcome, done, failed, ◌>>=◌}
use machineemu.Display.Frame.{
  PixelFormat, from_pixman, Rect, Frame, copy_rect, fits_within, merge_damage, update,
}
use machineemu.Display.Frame.Pixels.{channel, offset}
use machineemu.Display.Frame.Pixels.Rows.{Copied, in_rows}
use machineemu.Display.Frame.Copied.{
  IsSized, Inside, copy_of, is_short, CopyResult, unknown_format, too_short, copied,
  copy_rect-result,
}
use machineemu.Display.Frame.Damage.{DamageInside}

-- The pixels fill the dimensions, and the damage lies inside them.
pub record IsFrame (f : Frame) : Type 0 where
  pub sized : IsSized f
  pub damaged : DamageInside f.damage f

abbrev pub rect_of : ℤ → ℤ → ℤ → ℤ → Rect
rect_of x y width height = record {
  left = pos_part x;
  top = pos_part y;
  wide = pos_part width;
  high = pos_part height;
}

-- The first two checks of `update`.
abbrev pub is_outside : ℤ → ℤ → ℤ → ℤ → Frame → Bool
is_outside x y width height f =
    (is_negative x || is_negative y || leb_ℤ width (pos 0) || leb_ℤ height (pos 0))
    || (not (fits_within (pos_part x) (pos_part width) f.width)
        || not (fits_within (pos_part y) (pos_part height) f.height))

is_outside-Inside :
    (x y width height : ℤ) (f : Frame)
    → is_outside x y width height f ≡ false
    → Inside (rect_of x y width height) f
is_outside-Inside x y width height f h = ground arith

-- After the checks, `update` is a copy that adds to the damage.
abbrev damage_after : Rect → Frame → Outcome Frame
damage_after rect f' = done (record f' { damage = some (merge_damage f'.damage rect) })

update-outside :
    (x y width height : ℤ) (stride raw : ℕ) (bytes : List ℕ) (f : Frame)
    → is_outside x y width height f ≡ true
    → update x y width height stride raw bytes f ≡ failed outside
unfolding update
update-outside x y width height stride raw bytes f h = ground arith

update_inside :
    (x y width height : ℤ) (stride raw : ℕ) (bytes : List ℕ) (f : Frame)
    → is_outside x y width height f ≡ false
    → update x y width height stride raw bytes f ≡ (
        copy_rect (rect_of x y width height) stride raw bytes f
        >>= damage_after (rect_of x y width height))
unfolding update
update_inside x y width height stride raw bytes f h = ground arith

-- What `update` refuses, and with which error, in the order of its checks.
abbrev pub refusal : ℤ → ℤ → ℤ → ℤ → ℕ → ℕ → List ℕ → Frame → Option FrameError
refusal x y width height stride raw bytes f =
    if is_outside x y width height f then some outside else elim (from_pixman raw) [
      | none ↦ some (format raw)
      | some kind ↦
          if is_short (rect_of x y width height) stride bytes then some short_data else none
    ]

abbrev pub in_rect : Rect → ℕ → ℕ → Bool
in_rect r px py = in_range r.top (r.top + r.high) py && in_range r.left (r.left + r.wide) px

in_rows_whole :
    (r : Rect) (stride : ℕ) (kind : PixelFormat) (f : Frame) (px py : ℕ)
    → in_rows (copy_of r stride kind f) 0 r.high px py ≡ in_rect r px py
in_rows_whole r stride kind f px py = ground arith

-- The pixels after a copy of `r` from `bytes`.
pub record Drawn (r : Rect) (stride raw : ℕ) (bytes : List ℕ) (f f' : Frame) : Type 0 where
  pub same_width : f'.width ≡ f.width
  pub same_height : f'.height ≡ f.height
  pub same_length : length f'.pixels ≡ length f.pixels
  pub kind : PixelFormat
  pub known : from_pixman raw ≡ some kind
  pub cells :
      (px py ch : ℕ)
      → px < f.width
      → ch < 4
      → get_elem? f'.pixels (offset f.width px py ch) ≡ (
          if in_rect r px py
          then get_elem? bytes ((py - r.top) * stride + ((px - r.left) * 4 + channel kind ch))
          else get_elem? f.pixels (offset f.width px py ch))

pub drawn :
    (r : Rect) (stride raw : ℕ) (bytes : List ℕ) (f : Frame) (kind : PixelFormat) (after : List ℕ)
    (damage : Option Rect)
    → from_pixman raw ≡ some kind
    → Copied (copy_of r stride kind f) bytes 0 r.high f.pixels after
    → Drawn r stride raw bytes f (record f { pixels = after; damage = damage })
drawn r stride raw bytes f kind after damage known c = record {
  same_width = refl;
  same_height = refl;
  same_length = c.same_length;
  kind = kind;
  known = known;
  cells =
      λ px py ch inside q. rw (← in_rows_whole r stride kind f px py) (c.cells px py ch inside q);
}

-- An update that is not refused has drawn its rectangle and added it to the damage.
pub data UpdateResult (x y width height : ℤ) (stride raw : ℕ) (bytes : List ℕ) (f : Frame)
    : Type 0 where
  refused :
      (e : FrameError)
      → refusal x y width height stride raw bytes f ≡ some e
      → update x y width height stride raw bytes f ≡ failed e
      → UpdateResult x y width height stride raw bytes f
  accepted :
      (f' : Frame)
      → refusal x y width height stride raw bytes f ≡ none
      → update x y width height stride raw bytes f ≡ done f'
      → Inside (rect_of x y width height) f
      → Drawn (rect_of x y width height) stride raw bytes f f'
      → f'.damage ≡ some (merge_damage f.damage (rect_of x y width height))
      → UpdateResult x y width height stride raw bytes f

module _ (x y width height : ℤ) (stride raw : ℕ) (bytes : List ℕ) (f : Frame) where
  from_copy :
      is_outside x y width height f ≡ false
      → CopyResult (rect_of x y width height) stride raw bytes f
      → UpdateResult x y width height stride raw bytes f
  from_copy i (unknown_format e ran) =
      refused (format raw) (rw (i, e))
        (update_inside x y width height stride raw bytes f i ∙ rw ran)
  from_copy i (too_short kind e short ran) =
      refused short_data (rw (i, e, short))
        (update_inside x y width height stride raw bytes f i ∙ rw ran)
  from_copy i (copied kind after e enough ran result) =
      accepted _ (rw (i, e, enough)) (update_inside x y width height stride raw bytes f i ∙ rw ran)
        (is_outside-Inside x y width height f i)
        (drawn (rect_of x y width height) stride raw bytes f kind after _ e result) refl

  -- Every call is refused with the error that its arguments call for, or accepted; none panics.
  pub update-result : IsFrame f → UpdateResult x y width height stride raw bytes f
  update-result v = elim (Bool-cases (is_outside x y width height f)) [
    | inl out ↦ refused outside (rw out) (update-outside x y width height stride raw bytes f out)
    | inr i ↦ from_copy i (
        copy_rect-result (rect_of x y width height) stride raw bytes f v.sized
          (is_outside-Inside x y width height f i))
  ]
