-- ===== src/Display/Callbacks/Examples.antt =====
-- The theorems on mapped surfaces, the cursor and the callbacks at concrete inputs.
use machineemu.Prelude.{
  ℕ, ◌+◌, ◌*◌, ◌≡◌, ◌<◌, refl, true, false, Option, none, some, List, [], ◌∷◌, length, get_elem?,
  replicate, length-replicate, arith,
}
use machineemu.Prelude.Int.{pos}
use machineemu.Display.{done, failed, short_data}
use machineemu.Display.Tiled.{Surface, source_row, linearize_x_tiled}
use machineemu.Display.Tiled.Linear.{IsTiled, tiled_address, LinearResult, linearize-result}
use machineemu.Display.Tiled.Bounds.{linearize-total, linearize_cut}
use machineemu.Display.Capture.{Cursor, valid, Capture, new_capture, x_tiled}
use machineemu.Display.Capture.Cursors.{CursorOutcome, cursor_update-result}
use machineemu.Display.Callbacks.{
  Callback, scan, redraw, scan_dmabuf, set_mouse, define_cursor, update_cursor, take_snapshot,
}
use machineemu.Display.Callbacks.Reachable.{Reaches, perform_all-Reaches}
use machineemu.Display.Callbacks as Calls

-- Two tiles side by side, of which the picture takes five rows, the bottom one first.
abbrev small : Surface
small = record { width = 200; height = 5; stride = 1024; y0_top = true }

small-IsTiled : IsTiled small
small-IsTiled = record {
  wide = omega arith;
  whole_tiles = refl;
  size = omega arith;
  width_u32 = omega arith;
}

abbrev two_tiles : List ℕ
two_tiles = replicate 8192 7

linearize-result_example : LinearResult two_tiles small (linearize_x_tiled two_tiles small)
linearize-result_example =
    linearize-result two_tiles small small-IsTiled (omega (arith, length-replicate {A = ℕ} 8192 7))

linearize-total_example :
    (output : List ℕ) × (linearize_x_tiled two_tiles small ≡ done output)
    × (length output ≡ 1024 * 5)
    × ((y b : ℕ)
        → y < 5
        → b < 200 * 4
        → get_elem? output (y * 1024 + b)
          ≡ get_elem? two_tiles (tiled_address small (source_row small y) b))
linearize-total_example =
    linearize-total two_tiles small small-IsTiled (omega (arith, length-replicate {A = ℕ} 8192 7))

-- One row of eight tiles, mapped without the seven rows below.
abbrev strip : Surface
strip = record { width = 1024; height = 1; stride = 4096; y0_top = false }

strip-IsTiled : IsTiled strip
strip-IsTiled = record {
  wide = omega arith;
  whole_tiles = refl;
  size = omega arith;
  width_u32 = omega arith;
}

abbrev strip_bytes : List ℕ
strip_bytes = replicate 4096 7

linearize_cut_example : linearize_x_tiled strip_bytes strip ≡ failed short_data
linearize_cut_example =
    linearize_cut strip_bytes strip strip-IsTiled (omega (arith, length-replicate {A = ℕ} 4096 7))
      (omega arith) (omega arith) (omega arith)

abbrev arrow : Cursor
arrow = record {
  kind = "cursor";
  x = pos 3;
  y = pos 4;
  visible = true;
  width = 2;
  height = 1;
  hot_x = pos 1;
  hot_y = pos 0;
  image = replicate 8 0;
}

abbrev with_arrow : Capture
with_arrow = record {
  frame = none;
  refresh = false;
  dma = none;
  native = false;
  cursor = arrow;
  cursor_revision = 5;
}

arrow-valid : valid arrow ≡ true
unfolding valid
arrow-valid = refl

cursor_update-result_example :
    CursorOutcome (pos 1) (pos 0) (pos 1) (pos 1) (1 ∷ 2 ∷ 3 ∷ 4 ∷ []) with_arrow
cursor_update-result_example =
    cursor_update-result (pos 1) (pos 0) (pos 1) (pos 1) (1 ∷ 2 ∷ 3 ∷ 4 ∷ []) with_arrow arrow-valid

abbrev zero_file : ℕ → ℕ → Option (List ℕ)
zero_file file size = some (replicate size 0)

abbrev calls : List Callback
calls =
    scan 1 1 4 0x2002_0888 (1 ∷ 2 ∷ 3 ∷ 4 ∷ [])
    ∷ scan_dmabuf 7 strip 0x3432_5258 x_tiled
    ∷ define_cursor (pos 1) (pos 1) (pos 0) (pos 0) (1 ∷ 2 ∷ 3 ∷ 4 ∷ [])
    ∷ update_cursor (pos 0) (pos 0) (pos 1) (pos 1) (5 ∷ 6 ∷ 7 ∷ 8 ∷ [])
    ∷ take_snapshot true
    ∷ []

perform_all-Reaches_example : Reaches (Calls.perform_all zero_file calls new_capture)
perform_all-Reaches_example = perform_all-Reaches zero_file calls (
  record { row_u32 = omega arith; height_u32 = omega arith; bytes_isize = omega arith },
  (
    (
      record { row_u32 = omega arith; height_u32 = omega arith; bytes_isize = omega arith },
      omega arith,
    ),
    (tt, (tt, (tt, tt))),
  ),
)
