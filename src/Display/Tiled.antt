-- ===== src/Display/Tiled.antt =====
-- crates/display-stream/src/listener.rs: surfaces that are mapped from a DMABUF, X-tiled or
-- bottom-up, are copied into top-down rows.
pub mod Rounds
pub mod Linear
pub mod Bounds
use machineemu.Prelude.{
  ℕ, zero, suc, ◌+◌, ◌-◌, ◌*◌, ◌/◌, ◌%◌, Bool, ◌||◌, not, List, length, replicate, slice,
  write_slice, ltb, ◌==◌, min, if◌then◌else◌,
}
use machineemu.Display.{
  Outcome, done, failed, panicked, geometry, short_data, ◌>>=◌, ◌>>◌, or_panic, or_fail, u32_mod,
  checked_mul, checked_add,
}

-- What the rounds of one `copy_x_tiled_row` share; `end` is the last byte to read in the row.
pub record TiledRow : Type 0 where
  pub mapped : List ℕ
  pub tiles_per_row : ℕ
  pub source_y : ℕ
  pub end : ℕ

-- Where byte `x` of the row starts in the tiles: 8 rows of 512 bytes make a tile of 4096.
unfoldable pub tile_source : TiledRow → ℕ → ℕ
tile_source t x =
    (t.source_y / 8 * t.tiles_per_row + x / 512) * 4096 + t.source_y % 8 * 512 + x % 512

-- How many bytes a round copies: to the end of the tile or of the row.
unfoldable pub run_length : TiledRow → ℕ → ℕ
run_length t x = min (512 - x % 512) (t.end - x)

-- One round of `while source_byte_x < end`, with the bounds test before the copy.
unfoldable pub copy_run : TiledRow → ℕ → ℕ → List ℕ → Outcome (List ℕ)
unfolding tile_source run_length
copy_run t x offset target =
    if ltb (length t.mapped) (tile_source t x + run_length t x)
      || ltb (length target) (offset + run_length t x)
    then failed short_data
    else do
      bytes ← or_panic (slice t.mapped (tile_source t x) (run_length t x))
      or_panic (write_slice target offset bytes)

-- The loop. A round copies at least one byte, so the bytes left are enough fuel; a loop that runs
-- out of it counts as a panic.
unfoldable pub copy_runs : ℕ → TiledRow → ℕ → ℕ → List ℕ → Outcome (List ℕ)
unfolding copy_run
copy_runs zero t x offset target = if ltb x t.end then panicked else done target
copy_runs (suc fuel) t x offset target =
    let rest =
      copy_run t x offset target
      >>= copy_runs fuel t (x + run_length t x) (offset + run_length t x) in
    if ltb x t.end then rest else done target

unfoldable pub copy_x_tiled_row : List ℕ → ℕ → ℕ → ℕ → ℕ → List ℕ → Outcome (List ℕ)
unfolding copy_runs
copy_x_tiled_row mapped stride source_y source_x width target = do
  first ← or_fail (checked_mul source_x 4) geometry
  bytes ← or_fail (checked_mul width 4) geometry
  end ← or_fail (checked_add first bytes) geometry
  let row : TiledRow = record {
    mapped = mapped;
    tiles_per_row = stride / 512;
    source_y = source_y;
    end = end;
  }
  copy_runs (end - first) row first 0 target

-- `u32::saturating_mul`.
abbrev pub saturating_mul_u32 : ℕ → ℕ → ℕ
saturating_mul_u32 a b = min (a * b) (u32_mod - 1)

-- The geometry of a mapped surface.
pub record Surface : Type 0 where
  pub width : ℕ
  pub height : ℕ
  pub stride : ℕ
  pub y0_top : Bool

-- `if y0_top { height - 1 - y } else { y }`.
abbrev pub source_row : Surface → ℕ → ℕ
source_row s y = if s.y0_top then s.height - 1 - y else y

unfoldable pub linear_row : List ℕ → Surface → ℕ → List ℕ → Outcome (List ℕ)
unfolding copy_x_tiled_row
linear_row mapped s y output = do
  target ← or_panic (slice output (y * s.stride) (s.width * 4))
  row ← copy_x_tiled_row mapped s.stride (source_row s y) 0 s.width target
  or_panic (write_slice output (y * s.stride) row)

-- `for y in y..y + rounds`.
unfoldable pub linear_rows : List ℕ → Surface → ℕ → ℕ → List ℕ → Outcome (List ℕ)
linear_rows mapped s zero y output = done output
linear_rows mapped s (suc rounds) y output =
    linear_row mapped s y output >>= linear_rows mapped s rounds (suc y)

unfoldable pub linearize_x_tiled : List ℕ → Surface → Outcome (List ℕ)
unfolding linear_rows linear_row
linearize_x_tiled mapped s =
    if ltb s.stride (saturating_mul_u32 s.width 4) || not (s.stride % 512 == 0)
    then failed geometry
    else do
      required ← or_fail (checked_mul s.stride s.height) geometry
      if ltb (length mapped) required
          then failed short_data
          else linear_rows mapped s s.height 0 (replicate required 0)

unfoldable pub flip_row : List ℕ → ℕ → ℕ → ℕ → List ℕ → Outcome (List ℕ)
flip_row mapped height stride row output = do
  source ← or_panic (slice mapped ((height - 1 - row) * stride) stride)
  or_panic (write_slice output (row * stride) source)

-- `for row in row..row + rounds`.
unfoldable pub flip_rows : List ℕ → ℕ → ℕ → ℕ → ℕ → List ℕ → Outcome (List ℕ)
unfolding flip_row
flip_rows mapped height stride zero row output = done output
flip_rows mapped height stride (suc rounds) row output =
    flip_row mapped height stride row output >>= flip_rows mapped height stride rounds (suc row)

unfoldable pub flip_linear : List ℕ → ℕ → ℕ → Outcome (List ℕ)
unfolding flip_rows
flip_linear mapped height stride = do
  required ← or_fail (checked_mul height stride) geometry
  if ltb (length mapped) required
      then failed short_data
      else flip_rows mapped height stride height 0 (replicate required 0)
