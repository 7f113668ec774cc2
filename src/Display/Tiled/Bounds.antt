-- ===== src/Display/Tiled/Bounds.antt =====
-- crates/display-stream/src/listener.rs: how much of an X-tiled surface has to be mapped.
use machineemu.Prelude.{
  ℕ, ◌+◌, ◌-◌, ◌*◌, ◌/◌, ◌%◌, ◌≤◌, ◌<◌, ◌≡◌, ap, ap₂, List, length, if◌then◌else◌, get_elem?, arith,
}
use machineemu.Display.{Outcome, done, failed, short_data}
use machineemu.Display.Tiled.{Surface, source_row, linearize_x_tiled}
use machineemu.Display.Tiled.Linear.{
  IsTiled, tiled_address, LinearResult, behind, linear, linearize-result,
}

-- The bytes of the whole tiles that the surface touches.
abbrev pub tiles_size : Surface → ℕ
tiles_size s = (s.height + 7) / 8 * (s.stride / 512) * 4096

next_band : (q k w : ℕ) → q < k → q * w + w ≤ k * w
next_band q k w h = grind arith

source_row-lt : (s : Surface) (y : ℕ) → y < s.height → source_row s y < s.height
source_row-lt s y h = ground arith

address_below :
    (s : Surface) (r b : ℕ)
    → IsTiled s
    → r < s.height
    → b < s.width * 4
    → tiled_address s r b < tiles_size s
address_below s r b v lt less = omega (
  arith,
  next_band (r / 8) ((s.height + 7) / 8) (s.stride / 512) (omega arith),
  v.wide,
  v.whole_tiles,
)

tiled_size : (s : Surface) → IsTiled s → s.stride ≡ s.stride / 512 * 512
tiled_size s v = omega (arith, v.whole_tiles)

times_le : (a b c : ℕ) → b ≤ c → a * b ≤ a * c
times_le a b c h = grind arith

tiles_product : (t k : ℕ) → t * 512 * (8 * k) ≡ k * t * 4096
tiles_product t k = grind arith

-- The surface is smaller than its tiles.
size_bound : (s : Surface) → IsTiled s → s.stride * s.height ≤ tiles_size s
size_bound s v =
    let whole = tiled_size s v in
    let tiles = tiles_product (s.stride / 512) ((s.height + 7) / 8) in
    let rows = times_le s.stride s.height (8 * ((s.height + 7) / 8)) (omega arith) in
    let same : s.stride * (8 * ((s.height + 7) / 8))
        ≡ s.stride / 512 * 512 * (8 * ((s.height + 7) / 8)) =
      ap (λ (n : ℕ). n * (8 * ((s.height + 7) / 8))) whole in
    omega (arith, tiles, rows, same)

linear_of :
    (mapped : List ℕ) (s : Surface) (out : Outcome (List ℕ))
    → IsTiled s
    → tiles_size s ≤ length mapped
    → LinearResult mapped s out
    → (output : List ℕ) × (out ≡ done output)
      × (length output ≡ s.stride * s.height)
      × ((y b : ℕ)
          → y < s.height
          → b < s.width * 4
          → get_elem? output (y * s.stride + b)
            ≡ get_elem? mapped (tiled_address s (source_row s y) b))
linear_of mapped s out v h (behind y b lt less short ran) =
    absurd
      (omega (arith, address_below s (source_row s y) b v (source_row-lt s y lt) less, short, h))
linear_of mapped s out v h (linear output ran size content) =
    (output, ran, size, λ y b lt less. (content y b lt less).1)

-- With every tile of the surface mapped, a surface whose rows are whole tiles is always copied.
pub linearize-total :
    (mapped : List ℕ) (s : Surface)
    → IsTiled s
    → tiles_size s ≤ length mapped
    → (output : List ℕ) × (linearize_x_tiled mapped s ≡ done output)
      × (length output ≡ s.stride * s.height)
      × ((y b : ℕ)
          → y < s.height
          → b < s.width * 4
          → get_elem? output (y * s.stride + b)
            ≡ get_elem? mapped (tiled_address s (source_row s y) b))
linearize-total mapped s v h =
    linear_of mapped s (linearize_x_tiled mapped s) v h
      (linearize-result mapped s v (omega (arith, size_bound s v, h)))

-- The first byte of the last tile in the band of tiles that the surface only partly fills.
cut_address : (q t r : ℕ) → r ≤ 7 → 8 ≤ t → t * 512 * (8 * q + r) ≤ (q * t + (t - 1)) * 4096
cut_address q t r h k = grind arith

abbrev cut_row : Surface → ℕ
cut_row s = s.height / 8 * 8

abbrev asked_row : Surface → ℕ
asked_row s = if s.y0_top then s.height - 1 - cut_row s else cut_row s

asked_row-lt :
    (s : Surface)
    → 0 < s.height % 8
    → (asked_row s < s.height) × (source_row s (asked_row s) ≡ cut_row s)
asked_row-lt s h = ground arith

cut_behind :
    (mapped : List ℕ) (s : Surface)
    → IsTiled s
    → length mapped ≡ s.stride * s.height
    → 8 ≤ s.stride / 512
    → length mapped ≤ tiled_address s (cut_row s) ((s.stride / 512 - 1) * 512)
cut_behind mapped s v size wide =
    let cut = cut_address (s.height / 8) (s.stride / 512) (s.height % 8) (omega arith) wide in
    let whole = tiled_size s v in
    let split : s.height ≡ 8 * (s.height / 8) + s.height % 8 = omega arith in
    let area : s.stride * s.height ≡ s.stride / 512 * 512 * (8 * (s.height / 8) + s.height % 8) =
      ap₂ (λ (m n : ℕ). m * n) whole split in
    let row : s.height / 8 * 8 / 8 ≡ s.height / 8 = omega arith in
    let first : s.height / 8 * 8 % 8 ≡ 0 = omega arith in
    let tile : (s.stride / 512 - 1) * 512 / 512 ≡ s.stride / 512 - 1 = omega arith in
    let start : (s.stride / 512 - 1) * 512 % 512 ≡ 0 = omega arith in
    rw (row, first, tile, start) (omega (arith, cut, area, size))

refused_of :
    (mapped : List ℕ) (s : Surface) (out : Outcome (List ℕ))
    → IsTiled s
    → length mapped ≡ s.stride * s.height
    → 0 < s.height % 8
    → 8 ≤ s.stride / 512
    → s.stride < s.width * 4 + 512
    → LinearResult mapped s out
    → out ≡ failed short_data
refused_of mapped s out v size partial wide full (behind y b lt less short ran) = ran
refused_of mapped s out v size partial wide full (linear output ran same content) =
    let (lt, row) = asked_row-lt s partial in
    let cell =
      content (asked_row s) ((s.stride / 512 - 1) * 512) lt
        (omega (arith, full, v.whole_tiles, wide)) in
    let inside = rw row at cell.0 in absurd (omega (arith, inside, cut_behind mapped s v size wide))

-- A mapping of `stride * height` bytes, which is what the callers map, does not hold an X-tiled
-- surface of at least eight tiles a row whose height is no multiple of eight and whose pixels reach
-- into the last tile of a row: the copy fails for lack of data.
pub linearize_cut :
    (mapped : List ℕ) (s : Surface)
    → IsTiled s
    → length mapped ≡ s.stride * s.height
    → 0 < s.height % 8
    → 8 ≤ s.stride / 512
    → s.stride < s.width * 4 + 512
    → linearize_x_tiled mapped s ≡ failed short_data
linearize_cut mapped s v size partial wide full =
    refused_of mapped s (linearize_x_tiled mapped s) v size partial wide full
      (linearize-result mapped s v (omega (arith, size)))
