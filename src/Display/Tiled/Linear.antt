-- ===== src/Display/Tiled/Linear.antt =====
-- crates/display-stream/src/listener.rs: `linearize_x_tiled` against the addresses of an X-tiled
-- surface.
use machineemu.Prelude.{
  ℕ, zero, suc, ◌+◌, ◌-◌, ◌*◌, ◌/◌, ◌%◌, ◌≤◌, ◌<◌, ◌≡◌, refl, ◌∙◌, true, false, List, length,
  get_elem?, take, drop, replicate, ltb, in_range, slice-some, write_slice, write_slice-some,
  overwrite, length-slice, length-overwrite, get_elem?-overwrite, length-replicate, min, arith,
  le→ltb, lt→ltb,
}
use native.Mathlib.Decide.{dec_lt}
use machineemu.Display.{Outcome, done, failed, short_data, ◌>>=◌, or_panic, u32_mod, u64_mod}
use machineemu.Display.Tiled.{
  TiledRow, tile_source, copy_x_tiled_row, Surface, source_row, linear_row, linear_rows,
  linearize_x_tiled,
}
use machineemu.Display.Tiled.Rounds.{RowResult, outside, copied, copy_runs-result}

-- Where an X-tiled surface keeps byte `b` of row `y`: tiles of 512 bytes by 8 rows, row by row.
abbrev pub tiled_address : Surface → ℕ → ℕ → ℕ
tiled_address s y b = (y / 8 * (s.stride / 512) + b / 512) * 4096 + y % 8 * 512 + b % 512

-- What `linearize_x_tiled` asks of the geometry.
pub record IsTiled (s : Surface) : Type 0 where
  pub wide : s.width * 4 ≤ s.stride
  pub whole_tiles : s.stride % 512 ≡ 0
  pub size : s.stride * s.height < u64_mod
  pub width_u32 : s.width < u32_mod

abbrev pub tiled_row : List ℕ → Surface → ℕ → TiledRow
tiled_row mapped s y = record {
  mapped = mapped;
  tiles_per_row = s.stride / 512;
  source_y = y;
  end = s.width * 4;
}

tiled_row-result :
    (mapped : List ℕ) (s : Surface) (y : ℕ) (target : List ℕ)
    → s.width < u32_mod
    → length target ≡ s.width * 4
    → RowResult
        (tiled_row mapped s y)
        0
        0
        target
        (copy_x_tiled_row mapped s.stride y 0 s.width target)
unfolding copy_x_tiled_row
tiled_row-result mapped s y target small size =
    let bound = lt→ltb (s.width * 4) u64_mod (omega arith) in
    let start : 0 + s.width * 4 ≡ s.width * 4 = omega arith in
    let left : s.width * 4 - 0 ≡ s.width * 4 = omega arith in
    rw (bound, start, bound, left)
      (copy_runs-result (s.width * 4) (tiled_row mapped s y) 0 0 target (omega arith)
        (omega (arith, size)))

-- One row of the output: refused with a byte behind the mapping, or copied.
data LineResult (mapped : List ℕ) (s : Surface) (y : ℕ) (output : List ℕ) (out : Outcome (List ℕ))
    : Type 0 where
  hidden :
      (b : ℕ)
      → b < s.width * 4
      → length mapped ≤ tiled_address s (source_row s y) b
      → out ≡ failed short_data
      → LineResult mapped s y output out
  written :
      (row : List ℕ)
      → out ≡ done (overwrite output (y * s.stride) row)
      → length row ≡ s.width * 4
      → ((b : ℕ)
          → b < s.width * 4
          → (tiled_address s (source_row s y) b < length mapped)
            × (get_elem? row b ≡ get_elem? mapped (tiled_address s (source_row s y) b)))
      → LineResult mapped s y output out

rows_room : (y h w : ℕ) → y < h → y * w + w ≤ h * w
rows_room y h w h' = grind arith

in_row : (n i : ℕ) → i < n → in_range 0 (0 + (n - 0)) i ≡ true
in_row n i h = ground arith

line_of :
    (mapped : List ℕ) (s : Surface) (y : ℕ) (output target : List ℕ) (out : Outcome (List ℕ))
    → length target ≡ s.width * 4
    → y * s.stride + s.width * 4 ≤ length output
    → RowResult (tiled_row mapped s (source_row s y)) 0 0 target out
    → LineResult mapped s y output (out >>= λ row. or_panic (write_slice output (y * s.stride) row))
unfolding tile_source
line_of mapped s y output target out size room (outside b le lt short ran) =
    hidden b lt short (rw ran refl)
line_of mapped s y output target out size room (copied row ran same inside content) =
    written row
      (rw (ran, write_slice-some output (y * s.stride) row (omega (arith, same, size, room))) refl)
      (same ∙ size)
      (λ b lt.
        let same_b : 0 + (b - 0) ≡ b = omega arith in
        let here = content b in
        let there = rw (in_row (s.width * 4) b lt, same_b) at here in
        (inside b (omega arith) lt, there))

linear_row-result :
    (mapped : List ℕ) (s : Surface) (y : ℕ) (output : List ℕ)
    → IsTiled s
    → y < s.height
    → length output ≡ s.stride * s.height
    → LineResult mapped s y output (linear_row mapped s y output)
unfolding linear_row
linear_row-result mapped s y output v lt size =
    let room : y * s.stride + s.width * 4 ≤ length output =
      omega (arith, rows_room y s.height s.stride lt, v.wide, size) in
    let cut = length-slice output (y * s.stride) (s.width * 4) room in
    rw (slice-some output (y * s.stride) (s.width * 4) room) (
      line_of mapped s y output (take (s.width * 4) (drop (y * s.stride) output)) _ cut room (
        tiled_row-result mapped s (source_row s y) (take (s.width * 4) (drop (y * s.stride) output))
          v.width_u32 cut))

-- The rows above `y` hold the pixels of the surface.
abbrev Holds : List ℕ → Surface → ℕ → List ℕ → Type 0
Holds mapped s y output =
    (r b : ℕ)
    → r < y
    → b < s.width * 4
    → (tiled_address s (source_row s r) b < length mapped)
      × (get_elem? output (r * s.stride + b)
          ≡ get_elem? mapped (tiled_address s (source_row s r) b))

-- A row that is written after the others leaves them alone.
Holds-overwrite :
    (mapped : List ℕ) (s : Surface) (y : ℕ) (output row : List ℕ)
    → IsTiled s
    → y * s.stride + s.width * 4 ≤ length output
    → length row ≡ s.width * 4
    → Holds mapped s y output
    → ((b : ℕ)
        → b < s.width * 4
        → (tiled_address s (source_row s y) b < length mapped)
          × (get_elem? row b ≡ get_elem? mapped (tiled_address s (source_row s y) b)))
    → Holds mapped s (suc y) (overwrite output (y * s.stride) row)
Holds-overwrite mapped s y output row v room size h new r b lt less =
    let written =
      get_elem?-overwrite output (y * s.stride) row (r * s.stride + b)
        (omega (arith, size, room)) in
    elim (dec_lt r y) [
      | yes above ↦
          let gap = rows_room r y s.stride above in
          let off : in_range (y * s.stride) (y * s.stride + length row) (r * s.stride + b) ≡ false =
            ground (arith, gap, v.wide, less) in
          let kept = rw off at written in ((h r b above less).0, kept ∙ (h r b above less).1)
      | no not_above ↦
          let same : r ≡ y = omega arith in
          let on : in_range (y * s.stride) (y * s.stride + length row) (y * s.stride + b) ≡ true =
            ground (arith, size, less) in
          let index : y * s.stride + b - y * s.stride ≡ b = omega arith in
          let here = rw (same, on, index) at written in
          rw same ((new b less).0, here ∙ (new b less).1)
    ]

-- What `linearize_x_tiled` makes of a mapping: it is refused, with a byte of a wanted pixel behind
-- the mapping, or every byte of every pixel is found in its row.
pub data LinearResult (mapped : List ℕ) (s : Surface) (out : Outcome (List ℕ)) : Type 0 where
  behind :
      (y b : ℕ)
      → y < s.height
      → b < s.width * 4
      → length mapped ≤ tiled_address s (source_row s y) b
      → out ≡ failed short_data
      → LinearResult mapped s out
  linear :
      (output : List ℕ)
      → out ≡ done output
      → length output ≡ s.stride * s.height
      → ((y b : ℕ)
          → y < s.height
          → b < s.width * 4
          → (tiled_address s (source_row s y) b < length mapped)
            × (get_elem? output (y * s.stride + b)
                ≡ get_elem? mapped (tiled_address s (source_row s y) b)))
      → LinearResult mapped s out

rest_of :
    (mapped : List ℕ) (s : Surface) (rounds y : ℕ) (output : List ℕ) (out : Outcome (List ℕ))
    → IsTiled s
    → y + suc rounds ≡ s.height
    → length output ≡ s.stride * s.height
    → Holds mapped s y output
    → ((next : List ℕ)
        → length next ≡ s.stride * s.height
        → Holds mapped s (suc y) next
        → LinearResult mapped s (linear_rows mapped s rounds (suc y) next))
    → LineResult mapped s y output out
    → LinearResult mapped s (out >>= linear_rows mapped s rounds (suc y))
rest_of mapped s rounds y output out v e size h rest (hidden b lt short ran) =
    behind y b (omega arith) lt short (rw ran refl)
rest_of mapped s rounds y output out v e size h rest (written row ran same content) =
    let room : y * s.stride + s.width * 4 ≤ length output =
      omega (arith, rows_room y s.height s.stride (omega arith), v.wide, size) in
    rw ran (
      rest (overwrite output (y * s.stride) row)
        (length-overwrite output (y * s.stride) row (omega (arith, same, room)) ∙ size)
        (Holds-overwrite mapped s y output row v room same h content))

linear_rows-result :
    (mapped : List ℕ) (s : Surface) (rounds y : ℕ) (output : List ℕ)
    → IsTiled s
    → y + rounds ≡ s.height
    → length output ≡ s.stride * s.height
    → Holds mapped s y output
    → LinearResult mapped s (linear_rows mapped s rounds y output)
unfolding linear_rows
linear_rows-result mapped s zero y output v e size h =
    linear output refl size (λ r b lt less. h r b (omega arith) less)
linear_rows-result mapped s (suc rounds) y output v e size h =
    rest_of mapped s rounds y output _ v e size h
      (λ next size' h'. linear_rows-result mapped s rounds (suc y) next v (omega arith) size' h')
      (linear_row-result mapped s y output v (omega arith) size)

-- A surface whose rows are whole tiles and whose size fits: the copy is refused as too short, and
-- then a byte of a pixel lies behind the mapping, or it succeeds, and then byte `b` of row `y` is
-- the byte that the tiles hold for this row, counted from the bottom if the surface is bottom-up.
-- The mapping has the bytes that the code asks for before it starts.
pub linearize-result :
    (mapped : List ℕ) (s : Surface)
    → IsTiled s
    → s.stride * s.height ≤ length mapped
    → LinearResult mapped s (linearize_x_tiled mapped s)
unfolding linearize_x_tiled
linearize-result mapped s v h =
    let wide : ltb s.stride (min (s.width * 4) (u32_mod - 1)) ≡ false =
      le→ltb s.stride (min (s.width * 4) (u32_mod - 1)) (omega (arith, v.wide)) in
    rw
      (
        wide,
        v.whole_tiles,
        lt→ltb (s.stride * s.height) u64_mod v.size,
        le→ltb (length mapped) (s.stride * s.height) h,
      )
      (linear_rows-result mapped s s.height 0 (replicate (s.stride * s.height) 0) v (omega arith)
        (length-replicate (s.stride * s.height) 0) (λ r b lt. absurd (omega arith)))
