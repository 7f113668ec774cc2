-- ===== src/Display/Frame/Pixels.antt =====
-- crates/display-stream/src/frame.rs: the bytes that the row copies of `copy_rect` read and write.
pub mod Rows
use machineemu.Prelude.{
  ℕ, zero, suc, ◌+◌, ◌-◌, ◌*◌, ◌≤◌, ◌<◌, ◌≡◌, ◌⊎◌, inl, inr, refl, sym, ap, ◌∙◌, Bool, true, false,
  ◌&&◌, Option, none, some, List, [], ◌∷◌, length, get_elem?, take, drop, leb, ltb, ◌==◌,
  if◌then◌else◌, in_range, Bool-cases, slice, slice-some, write_slice, write_slice-some, overwrite,
  length-slice, get_elem?-slice, length-overwrite, get_elem?-overwrite, arith,
}
use native.Mathlib.Decide.{dec_lt}
use machineemu.Display.{Outcome, done, ◌>>=◌, or_panic}
use machineemu.Display.Frame.{
  PixelFormat, x8r8g8b8, a8r8g8b8, x8b8g8r8, a8b8g8r8, Rect, Frame, Copy, swap_red_blue, convert,
  copy_row, copy_rows,
}

abbrev pub swapped : ℕ → ℕ
swapped zero = 2
swapped (suc zero) = 1
swapped (suc (suc zero)) = 0
swapped c = c

-- The byte of a source pixel that becomes byte `c` of the BGRA pixel.
abbrev pub channel : PixelFormat → ℕ → ℕ
channel x8r8g8b8 c = c
channel a8r8g8b8 c = c
channel x8b8g8r8 c = swapped c
channel a8b8g8r8 c = swapped c

length-swap_red_blue : (n : ℕ) (s : List ℕ) → length s ≡ n * 4 → length (swap_red_blue s) ≡ n * 4
unfolding swap_red_blue
length-swap_red_blue zero [] h = refl
length-swap_red_blue zero (a ∷ s) h = absurd (omega arith)
length-swap_red_blue (suc n) [] h = absurd (omega arith)
length-swap_red_blue (suc n) (a ∷ []) h = absurd (omega arith)
length-swap_red_blue (suc n) (a ∷ b ∷ []) h = absurd (omega arith)
length-swap_red_blue (suc n) (a ∷ b ∷ c ∷ []) h = absurd (omega arith)
length-swap_red_blue (suc n) (a ∷ b ∷ c ∷ d ∷ s) h =
    omega (arith, length-swap_red_blue n s (omega arith))

next_pixel : (k c : ℕ) → suc k * 4 + c ≡ suc (suc (suc (suc (k * 4 + c))))
next_pixel k c = omega arith

get_elem?-swap_red_blue :
    (n : ℕ) (s : List ℕ) (k c : ℕ)
    → length s ≡ n * 4
    → k < n
    → c < 4
    → get_elem? (swap_red_blue s) (k * 4 + c) ≡ get_elem? s (k * 4 + swapped c)
unfolding swap_red_blue
get_elem?-swap_red_blue zero s k c h less q = elim less [ ]
get_elem?-swap_red_blue (suc n) [] k c h less q = absurd (omega arith)
get_elem?-swap_red_blue (suc n) (x0 ∷ []) k c h less q = absurd (omega arith)
get_elem?-swap_red_blue (suc n) (x0 ∷ x1 ∷ []) k c h less q = absurd (omega arith)
get_elem?-swap_red_blue (suc n) (x0 ∷ x1 ∷ x2 ∷ []) k c h less q = absurd (omega arith)
get_elem?-swap_red_blue (suc n) (x0 ∷ x1 ∷ x2 ∷ x3 ∷ s) (suc k) c h less q =
    rw (next_pixel k c, next_pixel k (swapped c))
      (get_elem?-swap_red_blue n s k c (omega arith) (omega arith) q)
get_elem?-swap_red_blue (suc n) (x0 ∷ x1 ∷ x2 ∷ x3 ∷ s) zero zero h less q = refl
get_elem?-swap_red_blue (suc n) (x0 ∷ x1 ∷ x2 ∷ x3 ∷ s) zero (suc zero) h less q = refl
get_elem?-swap_red_blue (suc n) (x0 ∷ x1 ∷ x2 ∷ x3 ∷ s) zero (suc (suc zero)) h less q = refl
get_elem?-swap_red_blue (suc n) (x0 ∷ x1 ∷ x2 ∷ x3 ∷ s) zero (suc (suc (suc zero))) h less q = refl
get_elem?-swap_red_blue (suc n) (x0 ∷ x1 ∷ x2 ∷ x3 ∷ s) zero (suc (suc (suc (suc c)))) h less q =
    absurd (omega arith)

length-convert :
    (f : PixelFormat) (n : ℕ) (s : List ℕ) → length s ≡ n * 4 → length (convert f s) ≡ n * 4
unfolding convert
length-convert x8r8g8b8 n s h = h
length-convert a8r8g8b8 n s h = h
length-convert x8b8g8r8 n s h = length-swap_red_blue n s h
length-convert a8b8g8r8 n s h = length-swap_red_blue n s h

get_elem?-convert :
    (f : PixelFormat) (n : ℕ) (s : List ℕ) (k c : ℕ)
    → length s ≡ n * 4
    → k < n
    → c < 4
    → get_elem? (convert f s) (k * 4 + c) ≡ get_elem? s (k * 4 + channel f c)
unfolding convert
get_elem?-convert x8r8g8b8 n s k c h less q = refl
get_elem?-convert a8r8g8b8 n s k c h less q = refl
get_elem?-convert x8b8g8r8 n s k c h less q = get_elem?-swap_red_blue n s k c h less q
get_elem?-convert a8b8g8r8 n s k c h less q = get_elem?-swap_red_blue n s k c h less q

channel-lt : (f : PixelFormat) (c : ℕ) → c < 4 → channel f c < 4
channel-lt f zero h = ground arith
channel-lt f (suc zero) h = ground arith
channel-lt f (suc (suc zero)) h = ground arith
channel-lt f (suc (suc (suc c))) h = ground arith

-- Where byte `c` of pixel (px, py) stands, in a buffer of `width` pixels a row.
abbrev pub offset : ℕ → ℕ → ℕ → ℕ → ℕ
offset width px py c = (py * width + px) * 4 + c

pub rows_apart : (a b width : ℕ) → a < b → a * width + width ≤ b * width
rows_apart a b width h = grind arith

-- The bytes of one row of a rectangle are a range, and hold those pixels of the row.
row_range :
    (width x w row px py c : ℕ)
    → x + w ≤ width
    → px < width
    → c < 4
    → in_range ((row * width + x) * 4) ((row * width + x) * 4 + w * 4) (offset width px py c)
      ≡ (py == row && in_range x (x + w) px)
row_range width x w row px py c fits inside q = elim (dec_lt py row) [
  | yes above ↦ ground (arith, rows_apart py row width above)
  | no h ↦ elim (dec_lt row py) [
    | yes below ↦ ground (arith, rows_apart row py width below)
    | no k ↦ let same : py ≡ row = omega arith in rw same (ground arith)
  ]
]

row_offset :
    (width x row px py ch : ℕ)
    → py ≡ row
    → x ≤ px
    → offset width px py ch - (row * width + x) * 4 ≡ (px - x) * 4 + ch
row_offset width x row px py ch same h = rw same (omega arith)

-- Pixel (px, py) lies in the given row of the rectangle.
abbrev pub in_row : Copy → ℕ → ℕ → ℕ → Bool
in_row c row px py = py == c.rect.top + row && in_range c.rect.left (c.rect.left + c.rect.wide) px

pub record InRow (c : Copy) (row px py : ℕ) : Type 0 where
  pub same_row : py ≡ c.rect.top + row
  pub left : c.rect.left ≤ px
  pub right : px < c.rect.left + c.rect.wide

pub in_row-true : (c : Copy) (row px py : ℕ) → in_row c row px py ≡ true → InRow c row px py
in_row-true c row px py h = ground arith

module _ (c : Copy) (bytes : List ℕ) where
  abbrev pub row_source : ℕ → List ℕ
  row_source row = take (c.rect.wide * 4) (drop (row * c.stride) bytes)

  abbrev pub row_start : ℕ → ℕ
  row_start row = ((c.rect.top + row) * c.frame_width + c.rect.left) * 4

  abbrev pub after_row : ℕ → List ℕ → List ℕ
  after_row row pixels = overwrite pixels (row_start row) (convert c.kind (row_source row))

  -- The row lies inside the data and inside the buffer.
  pub record RowFits (row : ℕ) (pixels : List ℕ) : Type 0 where
    pub in_data : row * c.stride + c.rect.wide * 4 ≤ length bytes
    pub in_pixels : row_start row + c.rect.wide * 4 ≤ length pixels

  length-row :
      (row : ℕ) (pixels : List ℕ)
      → RowFits row pixels
      → length (convert c.kind (row_source row)) ≡ c.rect.wide * 4
  length-row row pixels fits =
      length-convert c.kind c.rect.wide (row_source row)
        (length-slice bytes (row * c.stride) (c.rect.wide * 4) fits.in_data)

  pub copy_row-done :
      (row : ℕ) (pixels : List ℕ)
      → RowFits row pixels
      → (copy_row c bytes row pixels ≡ done (after_row row pixels))
        × (length (after_row row pixels) ≡ length pixels)
  unfolding copy_row
  copy_row-done row pixels fits =
      let n = length-row row pixels fits in
      let room : row_start row + length (convert c.kind (row_source row)) ≤ length pixels =
        omega (arith, fits.in_pixels) in
      (
        rw (
          slice-some bytes (row * c.stride) (c.rect.wide * 4) fits.in_data,
          slice-some pixels (row_start row) (c.rect.wide * 4) fits.in_pixels,
          write_slice-some pixels (row_start row) (convert c.kind (row_source row)) room,
        ),
        length-overwrite pixels (row_start row) (convert c.kind (row_source row)) room,
      )

  get_elem?-row_source :
      (row : ℕ) (pixels : List ℕ) (px py ch : ℕ)
      → RowFits row pixels
      → ch < 4
      → InRow c row px py
      → get_elem? (convert c.kind (row_source row)) (offset c.frame_width px py ch - row_start row)
        ≡ get_elem? bytes (row * c.stride + ((px - c.rect.left) * 4 + channel c.kind ch))
  get_elem?-row_source row pixels px py ch fits q at =
      let sized = length-slice bytes (row * c.stride) (c.rect.wide * 4) fits.in_data in
      let k = px - c.rect.left in
      let less : k < c.rect.wide = omega (arith, at.right, at.left) in
      ap (get_elem? (convert c.kind (row_source row)))
        (row_offset c.frame_width c.rect.left (c.rect.top + row) px py ch at.same_row at.left)
      ∙ get_elem?-convert c.kind c.rect.wide (row_source row) k ch sized less q
      ∙ get_elem?-slice bytes (row * c.stride) (c.rect.wide * 4) (k * 4 + channel c.kind ch)
          (omega (arith, channel-lt c.kind ch q))

  -- Byte `ch` of pixel (px, py) after a row was copied.
  pub get_elem?-after_row :
      (row : ℕ) (pixels : List ℕ) (px py ch : ℕ)
      → RowFits row pixels
      → c.rect.left + c.rect.wide ≤ c.frame_width
      → px < c.frame_width
      → ch < 4
      → get_elem? (after_row row pixels) (offset c.frame_width px py ch) ≡ (
          if in_row c row px py
          then get_elem? bytes (row * c.stride + ((px - c.rect.left) * 4 + channel c.kind ch))
          else get_elem? pixels (offset c.frame_width px py ch))
  get_elem?-after_row row pixels px py ch fits narrow inside q =
      let o = offset c.frame_width px py ch in
      let n = length-row row pixels fits in
      let room : row_start row + length (convert c.kind (row_source row)) ≤ length pixels =
        omega (arith, fits.in_pixels) in
      let range =
        row_range c.frame_width c.rect.left c.rect.wide (c.rect.top + row) px py ch narrow inside
          q in
      get_elem?-overwrite pixels (row_start row) (convert c.kind (row_source row)) o room
      ∙ elim (Bool-cases (in_row c row px py)) [
        | inl e ↦
            rw (n, range, e)
              (get_elem?-row_source row pixels px py ch fits q (in_row-true c row px py e))
        | inr e ↦ rw (n, range, e)
      ]
