-- ===== src/Display/Capture.antt =====
-- crates/display-stream/src/listener.rs: CaptureState and the callbacks of the display listener. A
-- file stands for a DMABUF; what mapping its first bytes gives is an argument. The messages on
-- stderr and the texts of D-Bus errors are left out.
pub mod Cursors
pub mod Safe
use Prim.Native.String.{String}
use text.Mathlib.Text.{◌==◌ as text_eq}
use machineemu.Prelude.{
  ℕ, zero, suc, ◌+◌, ◌*◌, ◌%◌, Bool, true, false, ◌&&◌, ◌||◌, not, Option, none, some, List, [],
  ◌∷◌, length, slice, write_slice, leb, ltb, ◌==◌, max, if◌then◌else◌,
}
use machineemu.Prelude.Int.{ℤ, pos, negsuc, pos_part, leb_ℤ, ltb_ℤ, is_negative}
use machineemu.Display.{
  Outcome, done, failed, panicked, format, geometry, outside, short_data, ◌>>=◌, ◌>>◌, or_panic,
  or_fail, u64_mod, checked_mul,
}
use machineemu.Display.Frame.{Frame, Rect, pixman_from_fourcc, scanout, update, fits_within}
use machineemu.Display.Tiled.{Surface, linearize_x_tiled, flip_linear}

abbrev pub max_cursor_dimension : ℕ
max_cursor_dimension = 256

-- `Cursor` of the protocol.
pub record Cursor : Type 0 where
  pub kind : String
  pub x : ℤ
  pub y : ℤ
  pub visible : Bool
  pub width : ℕ
  pub height : ℕ
  pub hot_x : ℤ
  pub hot_y : ℤ
  pub image : List ℕ

-- `Cursor::valid`.
unfoldable pub valid : Cursor → Bool
valid c =
    text_eq c.kind "cursor"
    && (leb c.width max_cursor_dimension
        && (leb c.height max_cursor_dimension
            && (not (is_negative c.hot_x)
                && (not (is_negative c.hot_y)
                    && ((c.width == 0 || ltb_ℤ c.hot_x (pos c.width))
                        && ((c.height == 0 || ltb_ℤ c.hot_y (pos c.height))
                            && length c.image == c.width * c.height * 4))))))

-- `DmaBufFrame`.
pub record DmaFrame : Type 0 where
  pub file : ℕ
  pub surface : Surface
  pub fourcc : ℕ
  pub pixman_format : ℕ
  pub modifier : ℕ

pub record Capture : Type 0 where
  pub frame : Option Frame
  pub refresh : Bool
  pub dma : Option DmaFrame
  pub native : Bool
  pub cursor : Cursor
  pub cursor_revision : ℕ

-- `CaptureState::new`.
unfoldable pub new_capture : Capture
new_capture = record {
  frame = none;
  refresh = false;
  dma = none;
  native = false;
  cursor = record {
    kind = "cursor";
    x = pos 0;
    y = pos 0;
    visible = false;
    width = 0;
    height = 0;
    hot_x = pos 0;
    hot_y = pos 0;
    image = [];
  };
  cursor_revision = 0;
}

-- `CaptureState::scanout` and `CaptureState::update`.
unfoldable pub capture_scanout : ℕ → ℕ → ℕ → ℕ → List ℕ → Capture → Outcome Capture
capture_scanout width height stride raw bytes c = do
  frame ← scanout width height stride raw bytes
  done (record c { frame = some frame; refresh = true })

unfoldable pub capture_update : ℤ → ℤ → ℤ → ℤ → ℕ → ℕ → List ℕ → Capture → Outcome Capture
capture_update x y width height stride raw bytes c = do
  frame ← or_fail c.frame outside
  frame ← update x y width height stride raw bytes frame
  done (record c { frame = some frame; refresh = true })

abbrev pub x_tiled : ℕ
x_tiled = 0x0100_0000_0000_0001

-- The rows of a mapping, top-down.
unfoldable pub rows_of : ℕ → Surface → List ℕ → Outcome (List ℕ)
rows_of modifier s mapped =
    if modifier == x_tiled
    then linearize_x_tiled mapped s
    else if s.y0_top
    then done mapped
    else flip_linear mapped s.height s.stride

-- `offsets.first().copied().unwrap_or(0)`, and the first of a list.
abbrev pub first_offset : List ℕ → ℕ
first_offset [] = 0
first_offset (offset ∷ offsets) = offset

abbrev pub first_of : List ℕ → Option ℕ
first_of [] = none
first_of (a ∷ rest) = some a

-- `map_file file length` is what the kernel maps, if it does.
module _ (map_file : ℕ → ℕ → Option (List ℕ)) where
  unfoldable pub surface_frame : ℕ → ℕ → ℕ → Surface → Outcome Frame
  unfolding rows_of
  surface_frame file modifier pixman_format s = do
    size ← or_fail (checked_mul s.stride s.height) geometry
    mapped ← or_fail (map_file file size) short_data
    rows ← rows_of modifier s mapped
    scanout s.width s.height s.stride pixman_format rows

  -- `CaptureState::scanout_dmabuf`.
  unfoldable pub scanout_dmabuf : ℕ → Surface → ℕ → ℕ → Capture → Outcome Capture
  unfolding surface_frame
  scanout_dmabuf file s fourcc modifier c =
      if not (modifier == 0) && not (modifier == x_tiled) then failed (format fourcc) else do
        pixman_format ← or_fail (pixman_from_fourcc fourcc) (format fourcc)
        frame ← surface_frame file modifier pixman_format s
        done (record c {
          frame = some frame;
          dma = some (record {
            file = file;
            surface = s;
            fourcc = fourcc;
            pixman_format = pixman_format;
            modifier = modifier;
          });
          refresh = true;
        })

  -- The part of `update_dmabuf` with an accepted scanout; `u32::try_from` refuses negative numbers.
  unfoldable pub update_surface : ℤ → ℤ → ℤ → ℤ → DmaFrame → Capture → Outcome Capture
  update_surface x y width height d c =
      if is_negative x || is_negative y || is_negative width || is_negative height
      then failed outside
      else if not (fits_within (pos_part x) (pos_part width) d.surface.width)
          || not (fits_within (pos_part y) (pos_part height) d.surface.height)
      then failed outside
      else if c.native
      then done (record c { refresh = true })
      else do
        frame ← surface_frame d.file d.modifier d.pixman_format d.surface
        done (record c { frame = some frame; refresh = true })

  -- `CaptureState::update_dmabuf`.
  unfoldable pub update_dmabuf : ℤ → ℤ → ℤ → ℤ → Capture → Outcome Capture
  unfolding update_surface
  update_dmabuf x y width height c =
      or_fail c.dma outside >>= λ d. update_surface x y width height d c

  -- `CaptureState::scanout_dmabuf2`.
  unfoldable pub scanout_dmabuf2 :
      List ℕ → List ℕ → List ℕ → ℕ → ℕ → ℕ → ℕ → ℕ → ℕ → Bool → Capture → Outcome Capture
  unfolding scanout_dmabuf
  scanout_dmabuf2 files offsets strides width height fourcc backing_width backing_height modifier
        y0_top c =
      if not (length files == 1) || not (first_offset offsets == 0)
      then failed (format fourcc)
      else do
        stride ← or_fail (first_of strides) geometry
        file ← or_panic (first_of files)
        scanout_dmabuf file
            (record {
              width = max backing_width width;
              height = max backing_height height;
              stride = stride;
              y0_top = y0_top;
            })
            fourcc modifier c

-- `CaptureState::snapshot`, the frame and the surface.
abbrev pub taken : Option DmaFrame → Option Frame → Option (Frame × Option DmaFrame)
taken dma none = none
taken dma (some frame) = some (frame, dma)

unfoldable pub snapshot : Bool → Capture → Option (Frame × Option DmaFrame) × Capture
snapshot force c =
    if not c.refresh && not force
    then (none, c)
    else (taken c.dma c.frame, record c { refresh = false })

-- `CaptureState::set_native`.
unfoldable pub set_native : Bool → Capture → Capture
set_native native c = record c { native = native; refresh = not native || c.refresh }

-- `u64::wrapping_add(1)`.
abbrev pub next_revision : ℕ → ℕ
next_revision n = (n + 1) % u64_mod

-- `Listener::mouse_set` and `Listener::cursor_move`.
unfoldable pub mouse_set : ℤ → ℤ → Bool → Capture → Capture
mouse_set x y visible c = record c {
  cursor = record c.cursor { x = x; y = y; visible = visible };
  cursor_revision = next_revision c.cursor_revision;
}

unfoldable pub cursor_move : ℤ → ℤ → Capture → Capture
cursor_move x y c = record c {
  cursor = record c.cursor { x = x; y = y };
  cursor_revision = next_revision c.cursor_revision;
}

-- What a cursor call returns: `none` for the error, which leaves the state alone.
unfoldable pub with_cursor : Cursor → Capture → Option Capture
unfolding valid
with_cursor new c =
    if not (valid new) || ltb max_cursor_dimension new.width
    then none
    else some (record c { cursor = new; cursor_revision = next_revision c.cursor_revision })

-- `Listener::cursor_define`.
unfoldable pub cursor_define : ℤ → ℤ → ℤ → ℤ → List ℕ → Capture → Option Capture
unfolding with_cursor
cursor_define width height hot_x hot_y image c =
    if is_negative width || is_negative height
    then none
    else with_cursor
        (record c.cursor {
          width = pos_part width;
          height = pos_part height;
          hot_x = hot_x;
          hot_y = hot_y;
          image = image;
        })
        c

-- The rectangle of a cursor update, and its rows.
unfoldable pub cursor_row : Rect → ℕ → List ℕ → ℕ → List ℕ → Outcome (List ℕ)
cursor_row r width bytes row image = do
  source ← or_panic (slice bytes (row * (r.wide * 4)) (r.wide * 4))
  or_panic (write_slice image (((r.top + row) * width + r.left) * 4) source)

-- `for row in row..row + rounds`.
unfoldable pub cursor_rows : Rect → ℕ → List ℕ → ℕ → ℕ → List ℕ → Outcome (List ℕ)
unfolding cursor_row
cursor_rows r width bytes zero row image = done image
cursor_rows r width bytes (suc rounds) row image =
    cursor_row r width bytes row image >>= cursor_rows r width bytes rounds (suc row)

-- `Listener::cursor_update`: `failed outside` stands for the D-Bus error.
unfoldable pub cursor_update : ℤ → ℤ → ℤ → ℤ → List ℕ → Capture → Outcome Capture
unfolding cursor_rows
cursor_update x y width height bytes c =
    if is_negative x
      || is_negative y
      || is_negative width
      || is_negative height
      || ltb c.cursor.width (pos_part x + pos_part width)
      || ltb c.cursor.height (pos_part y + pos_part height)
      || not (length bytes == pos_part width * pos_part height * 4)
    then failed outside
    else do
      let rect : Rect = record {
        left = pos_part x;
        top = pos_part y;
        wide = pos_part width;
        high = pos_part height;
      }
      image ← cursor_rows rect c.cursor.width bytes rect.high 0 c.cursor.image
      done (record c {
        cursor = record c.cursor { image = image };
        cursor_revision = next_revision c.cursor_revision;
      })
