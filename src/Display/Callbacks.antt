-- ===== src/Display/Callbacks.antt =====
-- crates/display-stream/src/listener.rs: what QEMU may call on the listener, and the capture state
-- after a sequence of calls. A call that returns an error leaves the state alone.
pub mod Reachable
mod Examples
use machineemu.Prelude.{ℕ, Bool, Option, none, some, List, [], ◌∷◌}
use machineemu.Prelude.Int.{ℤ}
use machineemu.Display.{Outcome, done, failed, panicked, ◌>>=◌}
use machineemu.Display.Tiled.{Surface}
use machineemu.Display.Capture.{
  Capture, capture_scanout, capture_update, scanout_dmabuf, update_dmabuf, scanout_dmabuf2,
  snapshot, set_native, mouse_set, cursor_move, cursor_define, cursor_update,
}

pub data Callback : Type 0 where
  scan : ℕ → ℕ → ℕ → ℕ → List ℕ → Callback
  redraw : ℤ → ℤ → ℤ → ℤ → ℕ → ℕ → List ℕ → Callback
  scan_dmabuf : ℕ → Surface → ℕ → ℕ → Callback
  redraw_dmabuf : ℤ → ℤ → ℤ → ℤ → Callback
  scan_planes : List ℕ → List ℕ → List ℕ → ℕ → ℕ → ℕ → ℕ → ℕ → ℕ → Bool → Callback
  set_mouse : ℤ → ℤ → Bool → Callback
  define_cursor : ℤ → ℤ → ℤ → ℤ → List ℕ → Callback
  move_cursor : ℤ → ℤ → Callback
  update_cursor : ℤ → ℤ → ℤ → ℤ → List ℕ → Callback
  take_snapshot : Bool → Callback
  use_native : Bool → Callback

-- The state after a call that may have been refused.
abbrev pub or_same : Capture → Option Capture → Capture
or_same c none = c
or_same c (some c') = c'

-- An error is sent back to QEMU; a panic ends the callback with the lock poisoned.
abbrev pub keep_on_error : Capture → Outcome Capture → Outcome Capture
keep_on_error c (failed e) = done c
keep_on_error c (done c') = done c'
keep_on_error c panicked = panicked

module _ (map_file : ℕ → ℕ → Option (List ℕ)) where
  unfoldable pub perform : Callback → Capture → Outcome Capture
  perform (scan width height stride raw bytes) c =
      keep_on_error c (capture_scanout width height stride raw bytes c)
  perform (redraw x y width height stride raw bytes) c =
      keep_on_error c (capture_update x y width height stride raw bytes c)
  perform (scan_dmabuf file s fourcc modifier) c =
      keep_on_error c (scanout_dmabuf map_file file s fourcc modifier c)
  perform (redraw_dmabuf x y width height) c =
      keep_on_error c (update_dmabuf map_file x y width height c)
  perform (scan_planes files offsets strides width height fourcc bw bh modifier top) c =
      keep_on_error c
        (scanout_dmabuf2 map_file files offsets strides width height fourcc bw bh modifier top c)
  perform (set_mouse x y visible) c = done (mouse_set x y visible c)
  perform (define_cursor width height hot_x hot_y image) c =
      done (or_same c (cursor_define width height hot_x hot_y image c))
  perform (move_cursor x y) c = done (cursor_move x y c)
  perform (update_cursor x y width height bytes) c =
      keep_on_error c (cursor_update x y width height bytes c)
  perform (take_snapshot force) c = done (snapshot force c).1
  perform (use_native native) c = done (set_native native c)

  unfoldable pub perform_all : List Callback → Capture → Outcome Capture
  unfolding perform
  perform_all [] c = done c
  perform_all (call ∷ calls) c = perform call c >>= perform_all calls
