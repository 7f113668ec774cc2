-- ===== src/Display/Callbacks/Reachable.antt =====
-- crates/display-stream/src/listener.rs: the capture states that QEMU's calls can reach.
use machineemu.Prelude.{
  ℕ, ◌≡◌, ◌<◌, refl, ◌∙◌, Bool, true, not, ◌&&◌, ◌||◌, inl, inr, Option, List, [], ◌∷◌, All, max,
  ltb, Bool-cases,
}
use machineemu.Prelude.Int.{ℤ, pos_part, is_negative}
use machineemu.Display.{Outcome, done, u32_mod}
use machineemu.Display.Frame.Preserved.{IsSmall}
use machineemu.Display.Capture.{
  Cursor, valid, Capture, new_capture, snapshot, set_native, mouse_set, cursor_move, with_cursor,
  cursor_define, cursor_update, max_cursor_dimension,
}
use machineemu.Display.Capture.Cursors.{refused, redrawn, cursor_update-result}
use machineemu.Display.Capture.Safe.{
  Fine, returned, reported, IsCapture, new-IsCapture, capture_scanout-Fine, capture_update-Fine,
}
use machineemu.Display.Capture.Safe.Mapped.{
  scanout_dmabuf-Fine, update_dmabuf-Fine, scanout_dmabuf2-Fine,
}
use machineemu.Display.Callbacks.{
  Callback, scan, redraw, scan_dmabuf, redraw_dmabuf, scan_planes, set_mouse, define_cursor,
  move_cursor, update_cursor, take_snapshot, use_native, or_same, keep_on_error, perform,
  perform_all,
}

-- A scanout has fewer than 2^32 rows, less than 4 GiB a row and at most 2^63 - 1 bytes of pixels,
-- and what is passed as `u32` fits.
abbrev pub IsReasonable : Callback → Type 0
IsReasonable (scan width height stride raw bytes) = IsSmall width height
IsReasonable (scan_dmabuf file s fourcc modifier) = IsSmall s.width s.height × (s.stride < u32_mod)
IsReasonable (scan_planes files offsets strides width height fourcc bw bh modifier top) =
    IsSmall (max bw width) (max bh height) × All (λ stride. stride < u32_mod) strides
IsReasonable (redraw x y width height stride raw bytes) = Unit
IsReasonable (redraw_dmabuf x y width height) = Unit
IsReasonable (set_mouse x y visible) = Unit
IsReasonable (define_cursor width height hot_x hot_y image) = Unit
IsReasonable (move_cursor x y) = Unit
IsReasonable (update_cursor x y width height bytes) = Unit
IsReasonable (take_snapshot force) = Unit
IsReasonable (use_native native) = Unit

-- The state that follows.
abbrev pub Reaches : Outcome Capture → Type 0
Reaches out = (c : Capture) × (out ≡ done c) × IsCapture c

keep_on_error-Reaches :
    (c : Capture) (out : Outcome Capture)
    → IsCapture c
    → Fine IsCapture out
    → Reaches (keep_on_error c out)
keep_on_error-Reaches c out v (returned c' ran v') = (c', rw ran refl, v')
keep_on_error-Reaches c out v (reported e ran) = (c, rw ran refl, v)

same_cursor :
    (c c' : Capture)
    → c'.frame ≡ c.frame
    → c'.dma ≡ c.dma
    → valid c'.cursor ≡ true
    → IsCapture c
    → IsCapture c'
same_cursor c c' f d cv v = record {
  frame_fine = rw f v.frame_fine;
  dma_fine = rw d v.dma_fine;
  cursor_valid = cv;
}

valid_moved : (c : Cursor) (x y : ℤ) → valid (record c { x = x; y = y }) ≡ valid c
unfolding valid
valid_moved c x y = refl

valid_shown :
    (c : Cursor) (x y : ℤ) (visible : Bool)
    → valid (record c { x = x; y = y; visible = visible }) ≡ valid c
unfolding valid
valid_shown c x y visible = refl

with_cursor-IsCapture :
    (new : Cursor) (c : Capture) → IsCapture c → IsCapture (or_same c (with_cursor new c))
unfolding with_cursor
with_cursor-IsCapture new c v = elim (Bool-cases (valid new)) [
  | inr bad ↦ rw bad v
  | inl good ↦ elim (Bool-cases (ltb max_cursor_dimension new.width)) [
    | inl wide ↦ rw (good, wide) v
    | inr fits ↦
        rw (good, fits)
          (record { frame_fine = v.frame_fine; dma_fine = v.dma_fine; cursor_valid = good })
  ]
]

define-IsCapture :
    (width height hot_x hot_y : ℤ) (image : List ℕ) (c : Capture)
    → IsCapture c
    → IsCapture (or_same c (cursor_define width height hot_x hot_y image c))
unfolding cursor_define
define-IsCapture width height hot_x hot_y image c v =
    elim (Bool-cases (is_negative width || is_negative height)) [
      | inl bad ↦ rw bad v
      | inr good ↦ rw good (
          with_cursor-IsCapture
            (record c.cursor {
              width = pos_part width;
              height = pos_part height;
              hot_x = hot_x;
              hot_y = hot_y;
              image = image;
            })
            c v)
    ]

cursor_update-Fine :
    (x y width height : ℤ) (bytes : List ℕ) (c : Capture)
    → IsCapture c
    → Fine IsCapture (cursor_update x y width height bytes c)
cursor_update-Fine x y width height bytes c v =
    elim (cursor_update-result x y width height bytes c v.cursor_valid) [
      | refused bad ran ↦ reported _ ran
      | redrawn image good ran r ↦ returned _ ran (record {
        frame_fine = v.frame_fine;
        dma_fine = v.dma_fine;
        cursor_valid = r.still_valid;
      })
    ]

snapshot-IsCapture : (force : Bool) (c : Capture) → IsCapture c → IsCapture (snapshot force c).1
unfolding snapshot
snapshot-IsCapture force c v = elim (Bool-cases (not c.refresh && not force)) [
  | inl none_due ↦ rw none_due v
  | inr due ↦
      rw due
        (record { frame_fine = v.frame_fine; dma_fine = v.dma_fine; cursor_valid = v.cursor_valid })
]

module _ (map_file : ℕ → ℕ → Option (List ℕ)) where
  perform-Reaches :
      (call : Callback) (c : Capture)
      → IsReasonable call
      → IsCapture c
      → Reaches (perform map_file call c)
  unfolding perform set_native mouse_set cursor_move
  perform-Reaches (scan width height stride raw bytes) c small v =
      keep_on_error-Reaches c _ v (capture_scanout-Fine width height stride raw bytes c small v)
  perform-Reaches (redraw x y width height stride raw bytes) c small v =
      keep_on_error-Reaches c _ v (capture_update-Fine x y width height stride raw bytes c v)
  perform-Reaches (scan_dmabuf file s fourcc modifier) c small v =
      keep_on_error-Reaches c _ v
        (scanout_dmabuf-Fine map_file file s fourcc modifier c small.0 small.1 v)
  perform-Reaches (redraw_dmabuf x y width height) c small v =
      keep_on_error-Reaches c _ v (update_dmabuf-Fine map_file x y width height c v)
  perform-Reaches (scan_planes files offsets strides width height fourcc bw bh modifier top) c small
        v =
      keep_on_error-Reaches c _ v (
        scanout_dmabuf2-Fine map_file files offsets strides width height fourcc bw bh modifier top c
          small.0 small.1 v)
  perform-Reaches (set_mouse x y visible) c small v =
      (_, refl, same_cursor c _ refl refl (valid_shown c.cursor x y visible ∙ v.cursor_valid) v)
  perform-Reaches (define_cursor width height hot_x hot_y image) c small v =
      (_, refl, define-IsCapture width height hot_x hot_y image c v)
  perform-Reaches (move_cursor x y) c small v =
      (_, refl, same_cursor c _ refl refl (valid_moved c.cursor x y ∙ v.cursor_valid) v)
  perform-Reaches (update_cursor x y width height bytes) c small v =
      keep_on_error-Reaches c _ v (cursor_update-Fine x y width height bytes c v)
  perform-Reaches (take_snapshot force) c small v = (_, refl, snapshot-IsCapture force c v)
  perform-Reaches (use_native native) c small v =
      (_, refl, same_cursor c _ refl refl v.cursor_valid v)

  perform_all_from :
      (calls : List Callback) (c : Capture)
      → All IsReasonable calls
      → IsCapture c
      → Reaches (perform_all map_file calls c)
  unfolding perform_all
  perform_all_from [] c small v = (c, refl, v)
  perform_all_from (call ∷ calls) c small v =
      let (next, ran, v') = perform-Reaches call c small.0 v in
      rw ran (perform_all_from calls next small.1 v')

  -- No sequence of calls on a new capture panics, whatever the mapped files hold, if its scanouts
  -- have fewer than 2^32 rows of less than 4 GiB each, their pixels take up at most 2^63 - 1 bytes,
  -- and the strides given for dmabufs are below 2^32; afterwards the framebuffer, if there is one,
  -- is well formed and the cursor image is valid.
  pub perform_all-Reaches :
      (calls : List Callback)
      → All IsReasonable calls
      → Reaches (perform_all map_file calls new_capture)
  perform_all-Reaches calls small = perform_all_from calls new_capture small new-IsCapture
