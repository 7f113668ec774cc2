-- ===== src/Display/Capture/Safe.antt =====
-- crates/display-stream/src/listener.rs: the well-formed capture states, and the callbacks on frames that
-- QEMU passes inline.
pub mod Mapped
use machineemu.Prelude.{
  ℕ, zero, suc, ◌+◌, ◌-◌, ◌*◌, ◌%◌, ◌≤◌, ◌<◌, ◌≡◌, ◌≢◌, refl, sym, ◌∙◌, Bool, true, false, not,
  ◌&&◌, ◌||◌, inl, inr, Option, none, some, List, [], ◌∷◌, length, take, drop, replicate, slice,
  slice-some, write_slice, write_slice-some, overwrite, length-slice, length-overwrite,
  length-replicate, ltb, ◌==◌, max, if◌then◌else◌, Bool-cases, Option-cases, arith, lt→ltb, le→ltb,
  ltb→lt, ltb→le, min,
}
use machineemu.Prelude.Int.{ℤ, pos, negsuc, pos_part, is_negative}
use machineemu.Display.{
  Outcome, done, failed, panicked, FrameError, format, geometry, outside, short_data, ◌>>=◌,
  or_panic, or_fail, u32_mod, u64_mod, checked_mul,
}
use machineemu.Display.Frame.{Frame, pixman_from_fourcc, scanout, update, fits_within}
use machineemu.Display.Frame.Update.{IsFrame, UpdateResult, update-result}
use machineemu.Display.Frame.Update as U
use machineemu.Display.Frame.Preserved.{
  IsSmall, ScanoutResult, unknown, short, shown, scanout-result, update-IsFrame,
}
use machineemu.Display.Tiled.{
  Surface, linearize_x_tiled, flip_row, flip_rows, flip_linear, saturating_mul_u32,
}
use machineemu.Display.Tiled.Linear.{IsTiled, LinearResult, behind, linear, linearize-result}
use machineemu.Display.Capture.{
  Cursor, valid, DmaFrame, Capture, new_capture, capture_scanout, capture_update, x_tiled, rows_of,
  surface_frame, scanout_dmabuf, update_surface, update_dmabuf, first_offset, first_of,
  scanout_dmabuf2, snapshot, set_native, mouse_set, cursor_move, with_cursor, cursor_define,
  cursor_update,
}
use machineemu.Display.Capture.Cursors.{CursorOutcome, cursor_update-result}

-- The outcome is no panic, and what it returns has the property.
pub data Fine {A : Type 0} (P : A → Type 0) (out : Outcome A) : Type 0 where
  returned : (a : A) → out ≡ done a → P a → Fine P out
  reported : (e : FrameError) → out ≡ failed e → Fine P out

pub Fine-bind :
    {A B : Type 0} (P : A → Type 0) (Q : B → Type 0) (m : Outcome A) (next : A → Outcome B)
    → Fine P m
    → ((a : A) → P a → Fine Q (next a))
    → Fine Q (m >>= next)
Fine-bind P Q m next (returned a ran p) rest = rw ran (rest a p)
Fine-bind P Q m next (reported e ran) rest = reported e (rw ran refl)

pub Fine-or_fail :
    {A : Type 0} (P : A → Type 0) (o : Option A) (e : FrameError)
    → ((a : A) → o ≡ some a → P a)
    → Fine P (or_fail o e)
Fine-or_fail P none e h = reported e refl
Fine-or_fail P (some a) e h = returned a refl (h a refl)

-- The frame that a capture may have is well formed.
abbrev pub FrameFine : Option Frame → Type 0
FrameFine none = Unit
FrameFine (some f) = IsFrame f

abbrev pub DmaFine : Option DmaFrame → Type 0
DmaFine none = Unit
DmaFine (some d) = IsSmall d.surface.width d.surface.height × (d.surface.stride < u32_mod)

pub record IsCapture (c : Capture) : Type 0 where
  pub frame_fine : FrameFine c.frame
  pub dma_fine : DmaFine c.dma
  pub cursor_valid : valid c.cursor ≡ true

pub new-IsCapture : IsCapture new_capture
unfolding new_capture valid
new-IsCapture = record { frame_fine = tt; dma_fine = tt; cursor_valid = refl }

pub scanout-Fine :
    (width height stride raw : ℕ) (bytes : List ℕ)
    → ScanoutResult width height stride raw bytes
    → Fine IsFrame (scanout width height stride raw bytes)
scanout-Fine width height stride raw bytes (unknown e ran) = reported _ ran
scanout-Fine width height stride raw bytes (short e ran) = reported _ ran
scanout-Fine width height stride raw bytes (shown f ran enough v drawn damage) = returned f ran v

pub capture_scanout-Fine :
    (width height stride raw : ℕ) (bytes : List ℕ) (c : Capture)
    → IsSmall width height
    → IsCapture c
    → Fine IsCapture (capture_scanout width height stride raw bytes c)
unfolding capture_scanout
capture_scanout-Fine width height stride raw bytes c small v =
    Fine-bind IsFrame IsCapture (scanout width height stride raw bytes) _
      (scanout-Fine width height stride raw bytes
        (scanout-result width height stride raw bytes small))
      λ f vf.
        returned _ refl
          (record { frame_fine = vf; dma_fine = v.dma_fine; cursor_valid = v.cursor_valid })

pub update-Fine :
    (x y width height : ℤ) (stride raw : ℕ) (bytes : List ℕ) (f : Frame)
    → IsFrame f
    → Fine IsFrame (update x y width height stride raw bytes f)
update-Fine x y width height stride raw bytes f v =
    elim (update-result x y width height stride raw bytes f v) [
      | U.refused e verdict ran ↦ reported e ran
      | U.accepted f' verdict ran inside drawn damage ↦
          returned f' ran (update-IsFrame x y width height stride raw bytes f f' v ran)
    ]

pub capture_update-Fine :
    (x y width height : ℤ) (stride raw : ℕ) (bytes : List ℕ) (c : Capture)
    → IsCapture c
    → Fine IsCapture (capture_update x y width height stride raw bytes c)
unfolding capture_update
capture_update-Fine x y width height stride raw bytes c v =
    Fine-bind IsFrame IsCapture (or_fail c.frame outside) _
      (Fine-or_fail IsFrame c.frame outside
        (λ f e. let vf = v.frame_fine in let here = rw e at vf in here))
      λ f vf.
        Fine-bind IsFrame IsCapture (update x y width height stride raw bytes f) _
          (update-Fine x y width height stride raw bytes f vf)
          λ f' vf'.
            returned _ refl
              (record { frame_fine = vf'; dma_fine = v.dma_fine; cursor_valid = v.cursor_valid })
