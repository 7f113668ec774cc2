-- ===== src/Display/Capture/Cursors.antt =====
-- crates/display-stream/src/listener.rs: the cursor image under its updates.
use machineemu.Prelude.{
  ℕ, zero, suc, ◌+◌, ◌-◌, ◌*◌, ◌≤◌, ◌<◌, ◌≡◌, refl, ◌∙◌, Bool, true, false, ◌&&◌, ◌||◌, not, inl,
  inr, List, length, get_elem?, ltb, leb, ◌==◌, if◌then◌else◌, in_range, Bool-cases, slice,
  write_slice, length-slice, arith,
}
use machineemu.Prelude.Int.{ℤ, pos_part, is_negative}
use machineemu.Display.{Outcome, done, failed, panicked, outside, ◌>>=◌}
use machineemu.Display.Frame.{Rect, Copy, x8r8g8b8, copy_row, copy_rows}
use machineemu.Display.Frame.Pixels.{offset}
use machineemu.Display.Frame.Pixels.Rows.{CopyFits, copy_rows-done}
use machineemu.Display.Capture.{
  Cursor, valid, Capture, next_revision, cursor_row, cursor_rows, cursor_update,
}

-- The rows of a cursor update are copied as those of a framebuffer update are, pixel by pixel and
-- without a conversion.
abbrev pub as_copy : Rect → ℕ → Copy
as_copy r width = record { rect = r; frame_width = width; stride = r.wide * 4; kind = x8r8g8b8 }

cursor_row-copy_row :
    (r : Rect) (width : ℕ) (bytes : List ℕ) (row : ℕ) (image : List ℕ)
    → row * (r.wide * 4) + r.wide * 4 ≤ length bytes
    → cursor_row r width bytes row image ≡ copy_row (as_copy r width) bytes row image
unfolding cursor_row copy_row slice write_slice
cursor_row-copy_row r width bytes row image h =
    ground (arith, length-slice bytes (row * (r.wide * 4)) (r.wide * 4) h)

bind-same :
    (m : Outcome (List ℕ)) (f g : List ℕ → Outcome (List ℕ))
    → ((image : List ℕ) → f image ≡ g image)
    → (m >>= f) ≡ (m >>= g)
bind-same (done image) f g h = h image
bind-same (failed e) f g h = refl
bind-same panicked f g h = refl

row_in : (row high w : ℕ) → row < high → row * (w * 4) + w * 4 ≤ w * high * 4
row_in row high w h = grind arith

cursor_rows-copy_rows :
    (r : Rect) (width : ℕ) (bytes : List ℕ) (rounds row : ℕ) (image : List ℕ)
    → row + rounds ≤ r.high
    → length bytes ≡ r.wide * r.high * 4
    → cursor_rows r width bytes rounds row image
      ≡ copy_rows (as_copy r width) bytes rounds row image
unfolding cursor_rows copy_rows
cursor_rows-copy_rows r width bytes zero row image h size = refl
cursor_rows-copy_rows r width bytes (suc rounds) row image h size =
    rw
      (cursor_row-copy_row r width bytes row image
        (omega (arith, row_in row r.high r.wide (omega arith), size)))
      (bind-same (copy_row (as_copy r width) bytes row image) _ _
        (λ next. cursor_rows-copy_rows r width bytes rounds (suc row) next (omega arith) size))

valid-facts :
    (c : Cursor)
    → valid c ≡ true
    → (c.width ≤ 256) × (c.height ≤ 256) × (length c.image ≡ c.width * c.height * 4)
unfolding valid
valid-facts c h = ground arith

valid-image :
    (c : Cursor) (image : List ℕ)
    → length image ≡ length c.image
    → valid (record c { image = image }) ≡ valid c
unfolding valid
valid-image c image h = rw h refl

-- What `cursor_update` refuses.
abbrev pub is_refused : ℤ → ℤ → ℤ → ℤ → List ℕ → Cursor → Bool
is_refused x y width height bytes c =
    is_negative x
    || is_negative y
    || is_negative width
    || is_negative height
    || ltb c.width (pos_part x + pos_part width)
    || ltb c.height (pos_part y + pos_part height)
    || not (length bytes == pos_part width * pos_part height * 4)

abbrev pub update_rect : ℤ → ℤ → ℤ → ℤ → Rect
update_rect x y width height = record {
  left = pos_part x;
  top = pos_part y;
  wide = pos_part width;
  high = pos_part height;
}

abbrev pub in_update : Rect → ℕ → ℕ → Bool
in_update r px py =
    (leb r.top py && ltb py (r.top + r.high)) && (leb r.left px && ltb px (r.left + r.wide))

-- The cursor after an update that was not refused.
pub record Redrawn (r : Rect) (bytes : List ℕ) (c c' : Cursor) : Type 0 where
  pub still_valid : valid c' ≡ true
  pub same_width : c'.width ≡ c.width
  pub same_height : c'.height ≡ c.height
  pub cells :
      (px py ch : ℕ)
      → px < c.width
      → ch < 4
      → get_elem? c'.image (offset c.width px py ch) ≡ (
          if in_update r px py
          then get_elem? bytes ((py - r.top) * (r.wide * 4) + ((px - r.left) * 4 + ch))
          else get_elem? c.image (offset c.width px py ch))

drawn_in :
    (x y width height : ℤ) (bytes : List ℕ) (c : Cursor)
    → is_refused x y width height bytes c ≡ false
    → (pos_part x + pos_part width ≤ c.width)
      × (pos_part y + pos_part height ≤ c.height)
      × (length bytes ≡ pos_part width * pos_part height * 4)
drawn_in x y width height bytes c h = ground arith

whole_rows :
    (r : Rect) (width px py : ℕ)
    → (in_range (r.top + 0) (r.top + 0 + r.high) py && in_range r.left (r.left + r.wide) px)
      ≡ in_update r px py
whole_rows r width px py = ground arith

redraw :
    (r : Rect) (bytes : List ℕ) (c : Cursor)
    → valid c ≡ true
    → r.left + r.wide ≤ c.width
    → r.top + r.high ≤ c.height
    → length bytes ≡ r.wide * r.high * 4
    → (image : List ℕ) × (cursor_rows r c.width bytes r.high 0 c.image ≡ done image)
      × Redrawn r bytes c (record c { image = image })
redraw r bytes c v narrow tall size =
    let (w, h, sized) = valid-facts c v in
    let fits : CopyFits (as_copy r c.width) bytes c.height = record {
      narrow = narrow;
      tall = tall;
      stride_enough = omega arith;
      data_enough = grind (arith, size);
    } in
    let (image, ran, copied) =
      copy_rows-done (as_copy r c.width) bytes c.height r.high 0 c.image fits (omega arith) sized in
    (
      image,
      cursor_rows-copy_rows r c.width bytes r.high 0 c.image (omega arith) size ∙ ran,
      record {
        still_valid = valid-image c image copied.same_length ∙ v;
        same_width = refl;
        same_height = refl;
        cells =
            λ px py ch inside q. rw (← whole_rows r c.width px py) (copied.cells px py ch inside q);
      },
    )

pub data CursorOutcome (x y width height : ℤ) (bytes : List ℕ) (c : Capture) : Type 0 where
  refused :
      is_refused x y width height bytes c.cursor ≡ true
      → cursor_update x y width height bytes c ≡ failed outside
      → CursorOutcome x y width height bytes c
  redrawn :
      (image : List ℕ)
      → is_refused x y width height bytes c.cursor ≡ false
      → cursor_update x y width height bytes c
        ≡ done (record c {
          cursor = record c.cursor { image = image };
          cursor_revision = next_revision c.cursor_revision;
        })
      → Redrawn (update_rect x y width height) bytes c.cursor (record c.cursor { image = image })
      → CursorOutcome x y width height bytes c

-- An update of a valid cursor image never panics. It is refused if its rectangle is negative or
-- leaves the image or its data has another size, and otherwise every byte of the rectangle is the
-- one of the data, every other byte is kept, and the cursor stays valid.
pub cursor_update-result :
    (x y width height : ℤ) (bytes : List ℕ) (c : Capture)
    → valid c.cursor ≡ true
    → CursorOutcome x y width height bytes c
unfolding cursor_update
cursor_update-result x y width height bytes c v =
    elim (Bool-cases (is_refused x y width height bytes c.cursor)) [
      | inl bad ↦ refused bad (rw bad refl)
      | inr good ↦
          let (narrow, tall, size) = drawn_in x y width height bytes c.cursor good in
          let (image, ran, r) =
            redraw (update_rect x y width height) bytes c.cursor v narrow tall size in
          redrawn image good (rw (good, ran) refl) r
    ]
