-- ===== src/Display/Frame/Wide.antt =====
-- crates/display-stream/src/frame.rs: `copy_rect` computes the bytes of a row in 32 bits; here are scanouts
-- for which that wraps.
use machineemu.Prelude.{
  ℕ, zero, suc, ◌*◌, ◌%◌, ◌<◌, ◌≡◌, ◌≢◌, refl, inl, inr, none, some, Option-cases, Bool-cases, ltb,
  List, length, lt→ltb, le→ltb, slice-none, arith,
}
use machineemu.Display.{panicked, checked_mul, u32_mod, u64_mod}
use machineemu.Display.Frame.{
  from_pixman, Copy, copy_row, copy_rows, copy_rect, isize_max, zeroed, empty, scanout,
}
use machineemu.Display.Frame.Copied.{copy_of}
use machineemu.Display.Frame.Preserved.{whole, blank}

copy_row-panicked :
    (c : Copy) (bytes pixels : List ℕ)
    → c.stride ≡ 0
    → length bytes < c.rect.wide * 4
    → copy_row c bytes 0 pixels ≡ panicked
unfolding copy_row
copy_row-panicked c bytes pixels flat lacking =
    rw (slice-none bytes (0 * c.stride) (c.rect.wide * 4) (omega arith))

copy_rows-panicked :
    (c : Copy) (bytes : List ℕ) (n : ℕ) (pixels : List ℕ)
    → c.stride ≡ 0
    → length bytes < c.rect.wide * 4
    → copy_rows c bytes (suc n) 0 pixels ≡ panicked
unfolding copy_rows
copy_rows-panicked c bytes n pixels flat lacking =
    rw (copy_row-panicked c bytes pixels flat lacking)

-- The wrap makes the stride check and the size check pass whatever the data.
pub scanout_wide_panics :
    (width height raw : ℕ) (bytes : List ℕ)
    → (width * 4) % u32_mod ≡ 0
    → 0 < height
    → width * height * 4 < u64_mod
    → length bytes < width * 4
    → from_pixman raw ≢ none
    → scanout width height 0 raw bytes ≡ panicked
unfolding scanout empty zeroed copy_rect
scanout_wide_panics width zero raw bytes wraps h small lacking known = elim h [ ]
scanout_wide_panics width (suc n) raw bytes wraps h small lacking known =
    elim (Option-cases (from_pixman raw)) [
      | inl e ↦ absurd (known e)
      | inr (kind, e) ↦
          let area_ok : checked_mul width (suc n) ≡ some (width * suc n) =
            rw (lt→ltb (width * suc n) u64_mod (omega arith)) in
          let bytes_ok : checked_mul (width * suc n) 4 ≡ some (width * suc n * 4) =
            rw (lt→ltb (width * suc n * 4) u64_mod small) in
          let no_data : 0 * suc n ≡ 0 = omega arith in
          let all_panic =
            copy_rows-panicked (copy_of (whole width (suc n)) 0 kind (blank width (suc n))) bytes n
              (blank width (suc n)).pixels refl lacking in
          elim (Bool-cases (ltb isize_max (width * suc n * 4))) [
            | inl huge ↦ rw (area_ok, bytes_ok, zeroed, huge) refl
            | inr fits ↦
                rw
                  (
                    area_ok,
                    bytes_ok,
                    zeroed,
                    fits,
                    e,
                    wraps,
                    no_data,
                    le→ltb (length bytes) 0 (omega arith),
                    all_panic,
                  )
                  refl
          ]
    ]
