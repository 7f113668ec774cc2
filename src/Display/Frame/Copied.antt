-- ===== src/Display/Frame/Copied.antt =====
-- crates/display-stream/src/frame.rs: `copy_rect` as a whole, for a rectangle inside the frame.
use machineemu.Prelude.{
  ℕ, ◌+◌, ◌*◌, ◌≤◌, ◌<◌, ◌≡◌, inl, inr, Bool, true, false, ◌||◌, none, some, Option-cases,
  Bool-cases, List, length, ltb, arith,
}
use machineemu.Display.{format, short_data, done, failed, mul_u32, u32_mod}
use machineemu.Display.Frame.{PixelFormat, from_pixman, Rect, Frame, Copy, copy_rect}
use machineemu.Display.Frame.Pixels.Rows.{CopyFits, Copied, copy_rows-done}

-- The pixels fill the dimensions, and a row of them has less than 4 GiB.
pub record IsSized (f : Frame) : Type 0 where
  pub sized : length f.pixels ≡ f.width * f.height * 4
  pub row_u32 : f.width * 4 < u32_mod
  pub height_u32 : f.height < u32_mod

pub record Inside (r : Rect) (f : Frame) : Type 0 where
  pub right : r.left + r.wide ≤ f.width
  pub bottom : r.top + r.high ≤ f.height

abbrev pub copy_of : Rect → ℕ → PixelFormat → Frame → Copy
copy_of r stride kind f = record { rect = r; frame_width = f.width; stride = stride; kind = kind }

-- The stride holds a row and the data holds the rows.
abbrev pub is_short : Rect → ℕ → List ℕ → Bool
is_short r stride bytes = ltb stride (r.wide * 4) || ltb (length bytes) (stride * r.high)

-- What a call of `copy_rect` inside the frame comes to.
pub data CopyResult (r : Rect) (stride raw : ℕ) (bytes : List ℕ) (f : Frame) : Type 0 where
  unknown_format :
      from_pixman raw ≡ none
      → copy_rect r stride raw bytes f ≡ failed (format raw)
      → CopyResult r stride raw bytes f
  too_short :
      (kind : PixelFormat)
      → from_pixman raw ≡ some kind
      → is_short r stride bytes ≡ true
      → copy_rect r stride raw bytes f ≡ failed short_data
      → CopyResult r stride raw bytes f
  copied :
      (kind : PixelFormat) (after : List ℕ)
      → from_pixman raw ≡ some kind
      → is_short r stride bytes ≡ false
      → copy_rect r stride raw bytes f ≡ done (record f { pixels = after })
      → Copied (copy_of r stride kind f) bytes 0 r.high f.pixels after
      → CopyResult r stride raw bytes f

no_wrap : (w n : ℕ) → w ≤ n → n * 4 < u32_mod → mul_u32 w 4 ≡ w * 4
no_wrap w n le less = omega arith

copy_fits :
    (r : Rect) (stride : ℕ) (kind : PixelFormat) (bytes : List ℕ) (f : Frame)
    → Inside r f
    → is_short r stride bytes ≡ false
    → CopyFits (copy_of r stride kind f) bytes f.height
copy_fits r stride kind bytes f i e = record {
  narrow = i.right;
  tall = i.bottom;
  stride_enough = ground arith;
  data_enough = ground arith;
}

pub copy_rect-result :
    (r : Rect) (stride raw : ℕ) (bytes : List ℕ) (f : Frame)
    → IsSized f
    → Inside r f
    → CopyResult r stride raw bytes f
unfolding copy_rect
copy_rect-result r stride raw bytes f s i =
    let exact : mul_u32 r.wide 4 ≡ r.wide * 4 =
      no_wrap r.wide f.width (omega (arith, i.right)) s.row_u32 in
    elim (Option-cases (from_pixman raw)) [
      | inl e ↦ unknown_format e (rw e)
      | inr (kind, e) ↦ elim (Bool-cases (is_short r stride bytes)) [
        | inl short ↦ too_short kind e short (rw (e, exact, short))
        | inr enough ↦
            let (after, ran, result) =
              copy_rows-done (copy_of r stride kind f) bytes f.height r.high 0 f.pixels
                (copy_fits r stride kind bytes f i enough) (omega arith) s.sized in
            copied kind after e enough (rw (e, exact, enough, ran)) result
      ]
    ]
