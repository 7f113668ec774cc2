-- ===== src/Display/Frame/Preserved.antt =====
-- crates/display-stream/src/frame.rs: well-formed frames under `update`, the damage that it leaves, and
-- `scanout` on pictures whose rows and size fit.
use machineemu.Prelude.{
  ℕ, ◌*◌, ◌<◌, ◌≡◌, refl, sym, ap, ◌∙◌, subst, true, false, none, some, List, length, replicate,
  length-replicate, lt→ltb, le→ltb, ltb, ◌≤◌, arith,
}
use machineemu.Prelude.Int.{ℤ}
use machineemu.Display.{format, short_data, done, failed, u32_mod, u64_mod, checked_mul}
use machineemu.Display.Frame.{
  from_pixman, Rect, Frame, merge_damage, update, isize_max, zeroed, empty, scanout,
}
use machineemu.Display.Frame.Copied.{
  IsSized, Inside, CopyResult, unknown_format, too_short, copied, copy_rect-result, is_short,
}
use machineemu.Display.Frame.Damage.{
  Contains, ContainsDamage, merge_damage-Inside, merge_damage-Contains,
}
use machineemu.Display.Frame.Update.{
  IsFrame, rect_of, Drawn, drawn, UpdateResult, refused, accepted, update-result,
}

done-injective : {A : Type 0} {a b : A} → done a ≡ done b → a ≡ b
done-injective h = cc h

-- A frame with the dimensions and the number of bytes of another is as well sized.
resized :
    (f f' : Frame)
    → f'.width ≡ f.width
    → f'.height ≡ f.height
    → length f'.pixels ≡ length f.pixels
    → IsSized f
    → IsSized f'
resized f f' w h n s = record {
  sized = n ∙ s.sized ∙ rw (w, h);
  row_u32 = omega (arith, s.row_u32, w);
  height_u32 = omega (arith, s.height_u32, h);
}

module _ (x y width height : ℤ) (stride raw : ℕ) (bytes : List ℕ) (f f' : Frame) where
  -- An accepted update, taken apart.
  record Accepted : Type 0 where
    inside : Inside (rect_of x y width height) f
    picture : Drawn (rect_of x y width height) stride raw bytes f f'
    damage : f'.damage ≡ some (merge_damage f.damage (rect_of x y width height))

  accepted_of :
      UpdateResult x y width height stride raw bytes f
      → update x y width height stride raw bytes f ≡ done f'
      → Accepted
  accepted_of (refused e verdict ran) h = cc (ran, h)
  accepted_of (accepted g verdict ran i d m) h =
      let same : g ≡ f' = done-injective (sym ran ∙ h) in
      record {
        inside = i;
        picture = subst (Drawn (rect_of x y width height) stride raw bytes f) same d;
        damage = ap (λ (k : Frame). k.damage) (sym same) ∙ m;
      }

  -- An update keeps the frame well formed.
  pub update-IsFrame : IsFrame f → update x y width height stride raw bytes f ≡ done f' → IsFrame f'
  update-IsFrame v h =
      let a = accepted_of (update-result x y width height stride raw bytes f v) h in
      let d = a.picture in
      let within =
        merge_damage-Inside f v.sized (rect_of x y width height) a.inside f.damage v.damaged in
      record {
        sized = resized f f' d.same_width d.same_height d.same_length v.sized;
        damaged = rw a.damage (record {
          right = omega (arith, within.right, d.same_width);
          bottom = omega (arith, within.bottom, d.same_height);
        });
      }

  -- The new damage is the smallest rectangle around the old damage and what was drawn.
  pub update-damage :
      IsFrame f
      → update x y width height stride raw bytes f ≡ done f'
      → (box : Rect) × (f'.damage ≡ some box)
        × Contains box (rect_of x y width height)
        × ContainsDamage box f.damage
        × ((other : Rect)
            → Contains other (rect_of x y width height)
            → ContainsDamage other f.damage
            → Contains other box)
  update-damage v h =
      let a = accepted_of (update-result x y width height stride raw bytes f v) h in
      let (new, old, least) =
        merge_damage-Contains f v.sized (rect_of x y width height) a.inside f.damage v.damaged in
      (merge_damage f.damage (rect_of x y width height), a.damage, new, old, least)

-- A full picture.
abbrev pub whole : ℕ → ℕ → Rect
whole width height = record { left = 0; top = 0; wide = width; high = height }

abbrev pub blank : ℕ → ℕ → Frame
blank width height = record {
  width = width;
  height = height;
  pixels = replicate (width * height * 4) 0;
  damage = none;
}

-- A scanout whose rows have less than 4 GiB, of no more bytes than `isize::MAX`.
pub record IsSmall (width height : ℕ) : Type 0 where
  pub row_u32 : width * 4 < u32_mod
  pub height_u32 : height < u32_mod
  pub bytes_isize : width * height * 4 ≤ isize_max

product-lt : (a b m n : ℕ) → a < m → b < n → a * b < m * n
product-lt a b m n p q = grind arith

empty-done :
    (width height : ℕ)
    → IsSmall width height
    → (empty width height ≡ done (blank width height)) × IsSized (blank width height)
unfolding empty zeroed
empty-done width height s =
    let bytes : width * 4 * height < u32_mod * u32_mod =
      product-lt (width * 4) height u32_mod u32_mod s.row_u32 s.height_u32 in
    let area_ok : checked_mul width height ≡ some (width * height) =
      rw (lt→ltb (width * height) u64_mod (omega (arith, bytes))) in
    let bytes_ok : checked_mul (width * height) 4 ≡ some (width * height * 4) =
      rw (lt→ltb (width * height * 4) u64_mod (omega (arith, bytes))) in
    let fits : ltb isize_max (width * height * 4) ≡ false =
      le→ltb isize_max (width * height * 4) s.bytes_isize in
    (
      rw (area_ok, bytes_ok, zeroed, fits) refl,
      record {
        sized = length-replicate (width * height * 4) 0;
        row_u32 = s.row_u32;
        height_u32 = s.height_u32;
      },
    )

-- What a scanout of such dimensions comes to: an unknown format and short data are refused, and
-- otherwise the frame is well formed, shows the data, and is damaged as a whole.
pub data ScanoutResult (width height stride raw : ℕ) (bytes : List ℕ) : Type 0 where
  unknown :
      from_pixman raw ≡ none
      → scanout width height stride raw bytes ≡ failed (format raw)
      → ScanoutResult width height stride raw bytes
  short :
      is_short (whole width height) stride bytes ≡ true
      → scanout width height stride raw bytes ≡ failed short_data
      → ScanoutResult width height stride raw bytes
  shown :
      (f : Frame)
      → scanout width height stride raw bytes ≡ done f
      → is_short (whole width height) stride bytes ≡ false
      → IsFrame f
      → Drawn (whole width height) stride raw bytes (blank width height) f
      → f.damage ≡ some (whole width height)
      → ScanoutResult width height stride raw bytes

module _ (width height stride raw : ℕ) (bytes : List ℕ) (s : IsSmall width height) where
  scanout-copy :
      CopyResult (whole width height) stride raw bytes (blank width height)
      → ScanoutResult width height stride raw bytes
  unfolding scanout
  scanout-copy (unknown_format e ran) = unknown e (rw ((empty-done width height s).0, ran))
  scanout-copy (too_short kind e is ran) = short is (rw ((empty-done width height s).0, ran))
  scanout-copy (copied kind after e enough ran result) =
      let (made, sized) = empty-done width height s in
      shown
        (record {
          width = width;
          height = height;
          pixels = after;
          damage = some (whole width height);
        })
        (rw (made, ran)) enough
        (record {
          sized = record {
            sized = result.same_length ∙ sized.sized;
            row_u32 = s.row_u32;
            height_u32 = s.height_u32;
          };
          damaged = record { right = omega arith; bottom = omega arith };
        })
        (drawn (whole width height) stride raw bytes (blank width height) kind after _ e result)
        refl

  -- A scanout of less than 2^32 rows of less than 4 GiB each, whose pixels take up no more than
  -- 2^63 - 1 bytes, is refused for its format or its data, or yields a well-formed frame that shows
  -- the data and is damaged as a whole.
  pub scanout-result : ScanoutResult width height stride raw bytes
  scanout-result = scanout-copy (
      copy_rect-result (whole width height) stride raw bytes (blank width height)
        (empty-done width height s).1 (record { right = omega arith; bottom = omega arith }))
