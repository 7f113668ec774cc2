-- ===== src/Display/Examples.antt =====
-- Tests of the framebuffer, and its theorems at a picture of two by two pixels.
use machineemu.Prelude.{
  ℕ, ◌^◌, ◌≡◌, ◌≢◌, refl, List, [], ◌∷◌, none, some, slice, write_slice, arith,
}
use machineemu.Prelude.Int.{pos}
use machineemu.Display.{done, panicked}
use machineemu.Display.Frame.{
  Rect, Frame, pixman_a8r8g8b8, pixman_a8b8g8r8, from_pixman, copy_row, copy_rows, copy_rect, empty,
  scanout, update,
}
use machineemu.Display.Frame.Damage.{Contains, ContainsDamage}
use machineemu.Display.Frame.Update.{IsFrame, rect_of, UpdateResult, update-result}
use machineemu.Display.Frame.Preserved.{
  ScanoutResult, scanout-result, update-IsFrame, update-damage,
}
use machineemu.Display.Frame.Wide.{scanout_wide_panics}

abbrev picture : List ℕ
picture = 1 ∷ 2 ∷ 3 ∷ 4 ∷ 5 ∷ 6 ∷ 7 ∷ 8 ∷ 9 ∷ 10 ∷ 11 ∷ 12 ∷ 13 ∷ 14 ∷ 15 ∷ 16 ∷ []

abbrev shown_frame : Frame
shown_frame = record {
  width = 2;
  height = 2;
  pixels = picture;
  damage = some (record { left = 0; top = 0; wide = 2; high = 2 });
}

scanout_shows : scanout 2 2 8 pixman_a8r8g8b8 picture ≡ done shown_frame
unfolding scanout empty copy_rect copy_rows copy_row slice write_slice
scanout_shows = refl

abbrev clean_frame : Frame
clean_frame = record shown_frame { damage = none }

-- One RGBA pixel at (1, 0).
abbrev updated_frame : Frame
updated_frame = record {
  width = 2;
  height = 2;
  pixels = 1 ∷ 2 ∷ 3 ∷ 4 ∷ 22 ∷ 21 ∷ 20 ∷ 23 ∷ 9 ∷ 10 ∷ 11 ∷ 12 ∷ 13 ∷ 14 ∷ 15 ∷ 16 ∷ [];
  damage = some (record { left = 1; top = 0; wide = 1; high = 1 });
}

update_draws :
    update (pos 1) (pos 0) (pos 1) (pos 1) 4 pixman_a8b8g8r8 (20 ∷ 21 ∷ 22 ∷ 23 ∷ []) clean_frame
    ≡ done updated_frame
unfolding update copy_rect copy_rows copy_row slice write_slice
update_draws = refl

clean_frame-IsFrame : IsFrame clean_frame
clean_frame-IsFrame = record {
  sized = record { sized = refl; row_u32 = omega arith; height_u32 = omega arith };
  damaged = tt;
}

update-result_example :
    UpdateResult
      (pos 1)
      (pos 0)
      (pos 1)
      (pos 1)
      4
      pixman_a8b8g8r8
      (20 ∷ 21 ∷ 22 ∷ 23 ∷ [])
      clean_frame
update-result_example =
    update-result (pos 1) (pos 0) (pos 1) (pos 1) 4 pixman_a8b8g8r8 (20 ∷ 21 ∷ 22 ∷ 23 ∷ [])
      clean_frame clean_frame-IsFrame

update-IsFrame_example : IsFrame updated_frame
update-IsFrame_example =
    update-IsFrame (pos 1) (pos 0) (pos 1) (pos 1) 4 pixman_a8b8g8r8 (20 ∷ 21 ∷ 22 ∷ 23 ∷ [])
      clean_frame updated_frame clean_frame-IsFrame update_draws

update-damage_example :
    (box : Rect) × (updated_frame.damage ≡ some box)
    × Contains box (rect_of (pos 1) (pos 0) (pos 1) (pos 1))
    × ContainsDamage box none
    × ((other : Rect)
        → Contains other (rect_of (pos 1) (pos 0) (pos 1) (pos 1))
        → ContainsDamage other none
        → Contains other box)
update-damage_example =
    update-damage (pos 1) (pos 0) (pos 1) (pos 1) 4 pixman_a8b8g8r8 (20 ∷ 21 ∷ 22 ∷ 23 ∷ [])
      clean_frame updated_frame clean_frame-IsFrame update_draws

scanout-result_example : ScanoutResult 2 2 8 pixman_a8r8g8b8 picture
scanout-result_example =
    scanout-result 2 2 8 pixman_a8r8g8b8 picture
      (record { row_u32 = omega arith; height_u32 = omega arith; bytes_isize = omega arith })

known_format : from_pixman pixman_a8r8g8b8 ≢ none
unfolding from_pixman
known_format e = cc e

scanout_wide_panics_example : scanout (2 ^ 30) 1 0 pixman_a8r8g8b8 [] ≡ panicked
scanout_wide_panics_example =
    scanout_wide_panics (2 ^ 30) 1 pixman_a8r8g8b8 [] refl (omega arith) (omega arith) (omega arith)
      known_format
