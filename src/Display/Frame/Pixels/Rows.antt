-- ===== src/Display/Frame/Pixels/Rows.antt =====
-- crates/display-stream/src/frame.rs: the loop over the rows of `copy_rect`, by induction on its rounds.
use machineemu.Prelude.{
  ℕ, zero, suc, ◌+◌, ◌-◌, ◌*◌, ◌≤◌, ◌<◌, ◌≡◌, inl, inr, refl, ap, ◌∙◌, Bool, true, false, ◌&&◌,
  List, length, get_elem?, if◌then◌else◌, in_range, Bool-cases, arith,
}
use machineemu.Display.{done}
use machineemu.Display.Frame.{Copy, copy_rows}
use machineemu.Display.Frame.Pixels.{
  channel, offset, rows_apart, in_row, in_row-true, RowFits, after_row, copy_row-done,
  get_elem?-after_row,
}

-- The rectangle lies inside a frame of the given height, and the data holds its rows.
pub record CopyFits (c : Copy) (bytes : List ℕ) (height : ℕ) : Type 0 where
  pub narrow : c.rect.left + c.rect.wide ≤ c.frame_width
  pub tall : c.rect.top + c.rect.high ≤ height
  pub stride_enough : c.rect.wide * 4 ≤ c.stride
  pub data_enough : c.stride * c.rect.high ≤ length bytes

-- Pixel (px, py) lies in rows `row` to `row + rounds` of the rectangle.
abbrev pub in_rows : Copy → ℕ → ℕ → ℕ → ℕ → Bool
in_rows c row rounds px py =
    in_range (c.rect.top + row) (c.rect.top + row + rounds) py
    && in_range c.rect.left (c.rect.left + c.rect.wide) px

-- Where the data holds byte `ch` of pixel (px, py).
abbrev pub data_offset : Copy → ℕ → ℕ → ℕ → ℕ
data_offset c px py ch = (py - c.rect.top) * c.stride + ((px - c.rect.left) * 4 + channel c.kind ch)

data_in :
    (row high stride w len : ℕ)
    → row < high
    → w * 4 ≤ stride
    → stride * high ≤ len
    → row * stride + w * 4 ≤ len
data_in row high stride w len less wide enough = omega (arith, rows_apart row high stride less)

pixels_in :
    (row width height x w len : ℕ)
    → row < height
    → x + w ≤ width
    → len ≡ width * height * 4
    → (row * width + x) * 4 + w * 4 ≤ len
pixels_in row width height x w len less fits same = omega (arith, rows_apart row height width less)

in_rows_zero : (c : Copy) (row px py : ℕ) → in_rows c row 0 px py ≡ false
in_rows_zero c row px py = ground arith

in_rows_later :
    (c : Copy) (row rounds px py : ℕ)
    → in_rows c (suc row) rounds px py ≡ true
    → in_rows c row (suc rounds) px py ≡ true
in_rows_later c row rounds px py h = ground arith

in_rows_first :
    (c : Copy) (row rounds px py : ℕ)
    → in_row c row px py ≡ true
    → in_rows c row (suc rounds) px py ≡ true
in_rows_first c row rounds px py h = ground arith

in_rows_neither :
    (c : Copy) (row rounds px py : ℕ)
    → in_rows c (suc row) rounds px py ≡ false
    → in_row c row px py ≡ false
    → in_rows c row (suc rounds) px py ≡ false
in_rows_neither c row rounds px py h k = ground arith

row_data :
    (c : Copy) (row px py ch : ℕ)
    → in_row c row px py ≡ true
    → row * c.stride + ((px - c.rect.left) * 4 + channel c.kind ch) ≡ data_offset c px py ch
row_data c row px py ch h =
    let at = in_row-true c row px py h in
    let same : row ≡ py - c.rect.top = omega (arith, at.same_row) in
    ap (λ r. r * c.stride + ((px - c.rect.left) * 4 + channel c.kind ch)) same

module _ (c : Copy) (bytes : List ℕ) where
  -- What copying the rows `row` to `row + rounds` makes of the pixels.
  pub record Copied (row rounds : ℕ) (before after : List ℕ) : Type 0 where
    pub same_length : length after ≡ length before
    pub cells :
        (px py ch : ℕ)
        → px < c.frame_width
        → ch < 4
        → get_elem? after (offset c.frame_width px py ch) ≡ (
            if in_rows c row rounds px py
            then get_elem? bytes (data_offset c px py ch)
            else get_elem? before (offset c.frame_width px py ch))

  row_fits :
      (height row : ℕ) (pixels : List ℕ)
      → CopyFits c bytes height
      → row < c.rect.high
      → length pixels ≡ c.frame_width * height * 4
      → RowFits c bytes row pixels
  row_fits height row pixels f less sized = record {
    in_data =
        data_in row c.rect.high c.stride c.rect.wide (length bytes) less f.stride_enough
          f.data_enough;
    in_pixels =
        pixels_in (c.rect.top + row) c.frame_width height c.rect.left c.rect.wide (length pixels)
          (omega (arith, f.tall)) f.narrow sized;
  }

  Copied-none : (row : ℕ) (pixels : List ℕ) → Copied row 0 pixels pixels
  Copied-none row pixels = record {
    same_length = refl;
    cells = λ px py ch inside q. rw (in_rows_zero c row px py);
  }

  -- The first of the rows, and then the others.
  Copied-suc :
      (height row rounds : ℕ) (pixels after : List ℕ)
      → CopyFits c bytes height
      → RowFits c bytes row pixels
      → length (after_row c bytes row pixels) ≡ length pixels
      → Copied (suc row) rounds (after_row c bytes row pixels) after
      → Copied row (suc rounds) pixels after
  Copied-suc height row rounds pixels after f fits sized rest = record {
    same_length = rest.same_length ∙ sized;
    cells = λ px py ch inside q.
        rest.cells px py ch inside q
        ∙ let cell = get_elem?-after_row c bytes row pixels px py ch fits f.narrow inside q in
          elim (Bool-cases (in_rows c (suc row) rounds px py)) [
            | inl later ↦ rw (later, in_rows_later c row rounds px py later)
            | inr e ↦ elim (Bool-cases (in_row c row px py)) [
              | inl first ↦
                  rw (e, in_rows_first c row rounds px py first)
                    ((rw first at cell) ∙ ap (get_elem? bytes) (row_data c row px py ch first))
              | inr other ↦ rw (e, in_rows_neither c row rounds px py e other) (rw other at cell)
            ]
          ];
  }

  pub copy_rows-done :
      (height rounds row : ℕ) (pixels : List ℕ)
      → CopyFits c bytes height
      → row + rounds ≤ c.rect.high
      → length pixels ≡ c.frame_width * height * 4
      → (after : List ℕ) × (copy_rows c bytes rounds row pixels ≡ done after)
        × Copied row rounds pixels after
  unfolding copy_rows
  copy_rows-done height zero row pixels f less sized = (pixels, refl, Copied-none row pixels)
  copy_rows-done height (suc rounds) row pixels f less sized =
      let fits = row_fits height row pixels f (omega arith) sized in
      let (copied, kept) = copy_row-done c bytes row pixels fits in
      let (after, ran, rest) =
        copy_rows-done height rounds (suc row) (after_row c bytes row pixels) f (omega arith)
          (kept ∙ sized) in
      (after, rw copied ran, Copied-suc height row rounds pixels after f fits kept rest)
