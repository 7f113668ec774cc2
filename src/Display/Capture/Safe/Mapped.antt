-- ===== src/Display/Capture/Safe/Mapped.antt =====
-- crates/display-stream/src/listener.rs: the callbacks that map a DMABUF, on well-formed capture states.
use machineemu.Prelude.{
  ℕ, zero, suc, ◌+◌, ◌-◌, ◌*◌, ◌%◌, ◌≤◌, ◌<◌, ◌≡◌, refl, ◌∙◌, Bool, true, false, not, ◌&&◌, ◌||◌,
  inl, inr, Option, some, List, [], ◌∷◌, length, take, drop, replicate, slice-some,
  write_slice-some, All, overwrite, length-slice, length-overwrite, length-replicate, ltb, ◌==◌,
  max, Bool-cases, arith, ltb→lt, ltb→le,
}
use machineemu.Prelude.Int.{ℤ, pos_part, is_negative}
use machineemu.Display.{
  Outcome, format, geometry, outside, short_data, or_fail, u32_mod, u64_mod, checked_mul,
}
use machineemu.Display.Frame.{pixman_from_fourcc, fits_within}
use machineemu.Display.Frame.Update.{IsFrame}
use machineemu.Display.Frame.Preserved.{IsSmall, scanout-result}
use machineemu.Display.Tiled.{
  Surface, linearize_x_tiled, flip_row, flip_rows, flip_linear, saturating_mul_u32,
}
use machineemu.Display.Tiled.Linear.{IsTiled, LinearResult, behind, linear, linearize-result}
use machineemu.Display.Capture.{
  DmaFrame, Capture, x_tiled, rows_of, surface_frame, scanout_dmabuf, update_surface, update_dmabuf,
  first_offset, first_of, scanout_dmabuf2,
}
use machineemu.Display.Capture.Safe.{
  Fine, returned, reported, Fine-bind, Fine-or_fail, DmaFine, IsCapture, scanout-Fine,
}

abbrev Rows : List ℕ → Type 0
Rows bytes = Unit {0}

rows_gap : (row height stride : ℕ) → row < height → row * stride + stride ≤ height * stride
rows_gap row height stride h = grind arith

flip_rows-Fine :
    (mapped : List ℕ) (height stride rounds row : ℕ) (output : List ℕ)
    → height * stride ≤ length mapped
    → row + rounds ≤ height
    → length output ≡ height * stride
    → Fine Rows (flip_rows mapped height stride rounds row output)
unfolding flip_rows flip_row
flip_rows-Fine mapped height stride zero row output enough less size = returned output refl tt
flip_rows-Fine mapped height stride (suc rounds) row output enough less size =
    let source : (height - 1 - row) * stride + stride ≤ length mapped =
      omega (arith, rows_gap (height - 1 - row) height stride (omega arith), enough) in
    let bytes = take stride (drop ((height - 1 - row) * stride) mapped) in
    let taken = length-slice mapped ((height - 1 - row) * stride) stride source in
    let room : row * stride + length bytes ≤ length output =
      omega (arith, rows_gap row height stride (omega arith), taken, size) in
    rw
      (
        slice-some mapped ((height - 1 - row) * stride) stride source,
        write_slice-some output (row * stride) bytes room,
      )
      (flip_rows-Fine mapped height stride rounds (suc row) (overwrite output (row * stride) bytes)
        enough (omega arith) (length-overwrite output (row * stride) bytes room ∙ size))

flip_linear-Fine :
    (mapped : List ℕ) (height stride : ℕ) → Fine Rows (flip_linear mapped height stride)
unfolding flip_linear
flip_linear-Fine mapped height stride = elim (Bool-cases (ltb (height * stride) u64_mod)) [
  | inr big ↦ rw big (reported geometry refl)
  | inl fits ↦ elim (Bool-cases (ltb (length mapped) (height * stride))) [
    | inl few ↦ rw (fits, few) (reported short_data refl)
    | inr enough ↦
        rw (fits, enough)
          (flip_rows-Fine mapped height stride height 0 (replicate (height * stride) 0)
            (ltb→le (length mapped) (height * stride) enough) (omega arith)
            (length-replicate (height * stride) 0))
  ]
]

linear-Fine :
    (mapped : List ℕ) (s : Surface) (out : Outcome (List ℕ))
    → LinearResult mapped s out
    → Fine Rows out
linear-Fine mapped s out (behind y b lt less hidden ran) = reported short_data ran
linear-Fine mapped s out (linear output ran size content) = returned output ran tt

abbrev is_odd : Surface → Bool
is_odd s = ltb s.stride (saturating_mul_u32 s.width 4) || not (s.stride % 512 == 0)

even_facts :
    (s : Surface)
    → is_odd s ≡ false
    → s.stride < u32_mod
    → (s.width * 4 ≤ s.stride) × (s.stride % 512 ≡ 0)
even_facts s h small = ground arith

linearize-Fine :
    (mapped : List ℕ) (s : Surface)
    → s.width < u32_mod
    → s.stride < u32_mod
    → Fine Rows (linearize_x_tiled mapped s)
linearize-Fine mapped s width_u32 stride_u32 = elim (Bool-cases (is_odd s)) [
  | inl odd ↦ unfold linearize_x_tiled in rw odd (reported geometry refl)
  | inr even ↦ elim (Bool-cases (ltb (s.stride * s.height) u64_mod)) [
    | inr big ↦ unfold linearize_x_tiled in rw (even, big) (reported geometry refl)
    | inl fits ↦ elim (Bool-cases (ltb (length mapped) (s.stride * s.height))) [
      | inl few ↦ unfold linearize_x_tiled in rw (even, fits, few) (reported short_data refl)
      | inr enough ↦
          let (wide, whole) = even_facts s even stride_u32 in
          let v : IsTiled s = record {
            wide = wide;
            whole_tiles = whole;
            size = ltb→lt (s.stride * s.height) u64_mod fits;
            width_u32 = width_u32;
          } in
          linear-Fine mapped s (linearize_x_tiled mapped s)
            (linearize-result mapped s v (ltb→le (length mapped) (s.stride * s.height) enough))
    ]
  ]
]

rows_of-Fine :
    (modifier : ℕ) (s : Surface) (mapped : List ℕ)
    → s.width < u32_mod
    → s.stride < u32_mod
    → Fine Rows (rows_of modifier s mapped)
unfolding rows_of
rows_of-Fine modifier s mapped w st = elim (Bool-cases (modifier == x_tiled)) [
  | inl tiled ↦ rw tiled (linearize-Fine mapped s w st)
  | inr plain ↦ elim (Bool-cases s.y0_top) [
    | inl top ↦ rw (plain, top) (returned mapped refl tt)
    | inr bottom ↦ rw (plain, bottom) (flip_linear-Fine mapped s.height s.stride)
  ]
]

module _ (map_file : ℕ → ℕ → Option (List ℕ)) where
  surface_frame-Fine :
      (file modifier raw : ℕ) (s : Surface)
      → IsSmall s.width s.height
      → s.stride < u32_mod
      → Fine IsFrame (surface_frame map_file file modifier raw s)
  unfolding surface_frame
  surface_frame-Fine file modifier raw s small st =
      Fine-bind (λ size. Unit {0}) IsFrame (or_fail (checked_mul s.stride s.height) geometry) _
        (Fine-or_fail (λ size. Unit {0}) (checked_mul s.stride s.height) geometry (λ size e. tt))
        λ size _.
          Fine-bind Rows IsFrame (or_fail (map_file file size) short_data) _
            (Fine-or_fail Rows (map_file file size) short_data (λ mapped e. tt))
            λ mapped _.
              Fine-bind Rows IsFrame (rows_of modifier s mapped) _
                (rows_of-Fine modifier s mapped (omega (arith, small.row_u32)) st)
                λ rows _.
                  scanout-Fine s.width s.height s.stride raw rows
                    (scanout-result s.width s.height s.stride raw rows small)

  pub scanout_dmabuf-Fine :
      (file : ℕ) (s : Surface) (fourcc modifier : ℕ) (c : Capture)
      → IsSmall s.width s.height
      → s.stride < u32_mod
      → IsCapture c
      → Fine IsCapture (scanout_dmabuf map_file file s fourcc modifier c)
  unfolding scanout_dmabuf
  scanout_dmabuf-Fine file s fourcc modifier c small st v =
      elim (Bool-cases (not (modifier == 0) && not (modifier == x_tiled))) [
        | inl other ↦ rw other (reported (format fourcc) refl)
        | inr known ↦ rw known (
            Fine-bind (λ raw. Unit {0}) IsCapture
              (or_fail (pixman_from_fourcc fourcc) (format fourcc)) _
              (Fine-or_fail (λ raw. Unit {0}) (pixman_from_fourcc fourcc) (format fourcc)
                (λ raw e. tt))
              λ raw _.
                Fine-bind IsFrame IsCapture (surface_frame map_file file modifier raw s) _
                  (surface_frame-Fine file modifier raw s small st)
                  λ f vf. returned _ refl (record {
                    frame_fine = vf;
                    dma_fine = (small, st);
                    cursor_valid = v.cursor_valid;
                  }))
      ]

  update_surface-Fine :
      (x y width height : ℤ) (d : DmaFrame) (c : Capture)
      → IsSmall d.surface.width d.surface.height
      → d.surface.stride < u32_mod
      → IsCapture c
      → Fine IsCapture (update_surface map_file x y width height d c)
  unfolding update_surface
  update_surface-Fine x y width height d c small st v =
      elim (Bool-cases
        (is_negative x || is_negative y || is_negative width || is_negative height)) [
          | inl bad ↦ rw bad (reported outside refl)
          | inr good ↦
              elim (Bool-cases (
                not (fits_within (pos_part x) (pos_part width) d.surface.width)
                || not (fits_within (pos_part y) (pos_part height) d.surface.height))) [
                  | inl out ↦ rw (good, out) (reported outside refl)
                  | inr inside ↦ elim (Bool-cases c.native) [
                    | inl native ↦
                        rw (good, inside, native)
                          (returned _ refl (record {
                            frame_fine = v.frame_fine;
                            dma_fine = v.dma_fine;
                            cursor_valid = v.cursor_valid;
                          }))
                    | inr copied ↦
                        rw (good, inside, copied)
                          (Fine-bind IsFrame IsCapture
                            (surface_frame map_file d.file d.modifier d.pixman_format d.surface) _
                            (surface_frame-Fine d.file d.modifier d.pixman_format d.surface small
                              st)
                            λ f vf. returned _ refl (record {
                              frame_fine = vf;
                              dma_fine = v.dma_fine;
                              cursor_valid = v.cursor_valid;
                            }))
                  ]
                ]
        ]

  pub update_dmabuf-Fine :
      (x y width height : ℤ) (c : Capture)
      → IsCapture c
      → Fine IsCapture (update_dmabuf map_file x y width height c)
  unfolding update_dmabuf
  update_dmabuf-Fine x y width height c v =
      Fine-bind (λ d. DmaFine (some d)) IsCapture (or_fail c.dma outside) _
        (Fine-or_fail (λ d. DmaFine (some d)) c.dma outside
          (λ d e. let vd = v.dma_fine in let here = rw e at vd in here))
        λ d small. update_surface-Fine x y width height d c small.0 small.1 v

  one_plane :
      (files : List ℕ) → (length files == 1) ≡ true → (file : ℕ) × (first_of files ≡ some file)
  one_plane [] h = absurd (cc h)
  one_plane (file ∷ files) h = (file, refl)

  pub scanout_dmabuf2-Fine :
      (files offsets strides : List ℕ) (width height fourcc bw bh modifier : ℕ) (top : Bool)
      (c : Capture)
      → IsSmall (max bw width) (max bh height)
      → All (λ stride. stride < u32_mod) strides
      → IsCapture c
      → Fine IsCapture
          (scanout_dmabuf2 map_file files offsets strides width height fourcc bw bh modifier top c)
  unfolding scanout_dmabuf2
  scanout_dmabuf2-Fine files offsets [] width height fourcc bw bh modifier top c small strides_u32
        v =
      elim (Bool-cases (not (length files == 1) || not (first_offset offsets == 0))) [
        | inl bad ↦ rw bad (reported (format fourcc) refl)
        | inr good ↦ rw good (reported geometry refl)
      ]
  scanout_dmabuf2-Fine files offsets (stride ∷ strides) width height fourcc bw bh modifier top c
        small strides_u32 v =
      elim (Bool-cases (not (length files == 1) || not (first_offset offsets == 0))) [
        | inl bad ↦ rw bad (reported (format fourcc) refl)
        | inr good ↦
            let (file, first) = one_plane files (ground (arith, good)) in
            rw (good, first)
              (scanout_dmabuf-Fine file
                (record {
                  width = max bw width;
                  height = max bh height;
                  stride = stride;
                  y0_top = top;
                })
                fourcc modifier c small strides_u32.0 v)
      ]
