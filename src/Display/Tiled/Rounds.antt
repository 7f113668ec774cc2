-- ===== src/Display/Tiled/Rounds.antt =====
-- crates/display-stream/src/listener.rs: the rounds of `copy_x_tiled_row`, byte for byte.
use machineemu.Prelude.{
  ℕ, zero, suc, ◌+◌, ◌-◌, ◌≤◌, ◌<◌, ◌≡◌, inl, inr, refl, ap, sym, ◌∙◌, false, List, length,
  get_elem?, take, drop, ltb, if◌then◌else◌, in_range, in_range-cases, Bool-cases, slice-some,
  write_slice-some, overwrite, length-slice, get_elem?-slice, length-overwrite, get_elem?-overwrite,
  arith, ltb→le, le→ltb, lt→ltb, ltb→lt,
}
use native.Mathlib.Decide.{dec_lt}
use machineemu.Display.{Outcome, done, failed, short_data}
use machineemu.Display.Tiled.{TiledRow, tile_source, run_length, copy_run, copy_runs}

-- Within a tile, the bytes of a row lie one after the other.
tile_source-add :
    (t : TiledRow) (x k : ℕ) → k < run_length t x → tile_source t (x + k) ≡ tile_source t x + k
unfolding tile_source run_length
tile_source-add t x k h = omega arith

run_length_bounds :
    (t : TiledRow) (x : ℕ) → x < t.end → (0 < run_length t x) × (x + run_length t x ≤ t.end)
unfolding run_length
run_length_bounds t x h = omega arith

-- What a round leaves.
abbrev after_run : TiledRow → ℕ → ℕ → List ℕ → List ℕ
after_run t x offset target =
    overwrite target offset (take (run_length t x) (drop (tile_source t x) t.mapped))

copy_run-short :
    (t : TiledRow) (x offset : ℕ) (target : List ℕ)
    → length t.mapped < tile_source t x + run_length t x
    → copy_run t x offset target ≡ failed short_data
unfolding copy_run
copy_run-short t x offset target h =
    rw (lt→ltb (length t.mapped) (tile_source t x + run_length t x) h) refl

copy_run-done :
    (t : TiledRow) (x offset : ℕ) (target : List ℕ)
    → tile_source t x + run_length t x ≤ length t.mapped
    → offset + run_length t x ≤ length target
    → copy_run t x offset target ≡ done (after_run t x offset target)
unfolding copy_run
copy_run-done t x offset target h k =
    let size = length-slice t.mapped (tile_source t x) (run_length t x) h in
    rw
      (
        le→ltb (length t.mapped) (tile_source t x + run_length t x) h,
        le→ltb (length target) (offset + run_length t x) k,
        slice-some t.mapped (tile_source t x) (run_length t x) h,
        write_slice-some target offset (take (run_length t x) (drop (tile_source t x) t.mapped))
            (omega (arith, size, k)),
      )
      refl

length-after_run :
    (t : TiledRow) (x offset : ℕ) (target : List ℕ)
    → tile_source t x + run_length t x ≤ length t.mapped
    → offset + run_length t x ≤ length target
    → length (after_run t x offset target) ≡ length target
length-after_run t x offset target h k =
    length-overwrite target offset (take (run_length t x) (drop (tile_source t x) t.mapped))
      (omega (arith, length-slice t.mapped (tile_source t x) (run_length t x) h, k))

get_elem?-after_run :
    (t : TiledRow) (x offset : ℕ) (target : List ℕ) (i : ℕ)
    → tile_source t x + run_length t x ≤ length t.mapped
    → offset + run_length t x ≤ length target
    → get_elem? (after_run t x offset target) i ≡ (
        if in_range offset (offset + run_length t x) i
        then get_elem? t.mapped (tile_source t (x + (i - offset)))
        else get_elem? target i)
get_elem?-after_run t x offset target i h k =
    let bytes = take (run_length t x) (drop (tile_source t x) t.mapped) in
    let size : length bytes ≡ run_length t x =
      length-slice t.mapped (tile_source t x) (run_length t x) h in
    let written = get_elem?-overwrite target offset bytes i (omega (arith, size, k)) in
    let sized = rw size at written in
    elim (in_range-cases offset (offset + run_length t x) i) [
      | inl (e, le, lt) ↦
          let here = rw e at sized in
          rw e (
            here
            ∙ get_elem?-slice t.mapped (tile_source t x) (run_length t x) (i - offset) (omega arith)
            ∙ ap (get_elem? t.mapped) (sym (tile_source-add t x (i - offset) (omega arith))))
      | inr (e, out) ↦ let elsewhere = rw e at sized in rw e elsewhere
    ]

-- What the loop makes of the bytes from `x` to the end of the row: a byte that is wanted lies
-- behind the mapping, and the row is refused, or every byte is copied from its place in the tiles.
pub data RowResult (t : TiledRow) (x offset : ℕ) (target : List ℕ) (out : Outcome (List ℕ))
    : Type 0 where
  outside :
      (b : ℕ)
      → x ≤ b
      → b < t.end
      → length t.mapped ≤ tile_source t b
      → out ≡ failed short_data
      → RowResult t x offset target out
  copied :
      (row : List ℕ)
      → out ≡ done row
      → length row ≡ length target
      → ((b : ℕ) → x ≤ b → b < t.end → tile_source t b < length t.mapped)
      → ((i : ℕ)
          → get_elem? row i ≡ (
              if in_range offset (offset + (t.end - x)) i
              then get_elem? t.mapped (tile_source t (x + (i - offset)))
              else get_elem? target i))
      → RowResult t x offset target out

run_inside :
    (t : TiledRow) (x b : ℕ)
    → tile_source t x + run_length t x ≤ length t.mapped
    → x ≤ b
    → b < x + run_length t x
    → tile_source t b < length t.mapped
run_inside t x b h le lt =
    let place = tile_source-add t x (b - x) (omega arith) in
    let same : x + (b - x) ≡ b = omega arith in
    let here = rw same at place in omega (arith, here, h)

run_result :
    (t : TiledRow) (x offset : ℕ) (target : List ℕ) (out : Outcome (List ℕ))
    → tile_source t x + run_length t x ≤ length t.mapped
    → offset + run_length t x ≤ length target
    → x < t.end
    → RowResult t (x + run_length t x) (offset + run_length t x) (after_run t x offset target) out
    → RowResult t x offset target out
run_result t x offset target out h k less (outside b le lt short ran) =
    outside b (omega arith) lt short ran
run_result t x offset target out h k less (copied row ran size inside same) =
    copied row ran (size ∙ length-after_run t x offset target h k)
      (λ b le lt. elim (dec_lt b (x + run_length t x)) [
        | yes first ↦ run_inside t x b h le first
        | no later ↦ inside b (omega arith) lt
      ])
      (λ i.
        ground
          (arith, same i, get_elem?-after_run t x offset target i h k, run_length_bounds t x less))

-- A run that reaches behind the mapping has a last byte there.
refused_run :
    (t : TiledRow) (x offset : ℕ) (target : List ℕ)
    → x < t.end
    → length t.mapped < tile_source t x + run_length t x
    → RowResult t x offset target (failed short_data)
refused_run t x offset target less short =
    let bounds = run_length_bounds t x less in
    let place = tile_source-add t x (run_length t x - 1) (omega (arith, bounds)) in
    outside (x + (run_length t x - 1)) (omega arith) (omega (arith, bounds))
      (omega (arith, bounds, place, short)) refl

no_range : (offset n i : ℕ) → n ≡ 0 → in_range offset (offset + n) i ≡ false
no_range offset n i h = ground arith

nothing_left :
    (t : TiledRow) (x offset : ℕ) (target : List ℕ)
    → t.end ≤ x
    → RowResult t x offset target (done target)
nothing_left t x offset target h =
    copied target refl refl (λ b le lt. absurd (omega arith))
      (λ i. rw (no_range offset (t.end - x) i (omega arith)) refl)

pub copy_runs-result :
    (fuel : ℕ) (t : TiledRow) (x offset : ℕ) (target : List ℕ)
    → t.end - x ≤ fuel
    → offset + (t.end - x) ≤ length target
    → RowResult t x offset target (copy_runs fuel t x offset target)
unfolding copy_runs
copy_runs-result zero t x offset target enough room =
    rw (le→ltb x t.end (omega arith)) (nothing_left t x offset target (omega arith))
copy_runs-result (suc fuel) t x offset target enough room = elim (Bool-cases (ltb x t.end)) [
  | inl more ↦
      let less = ltb→lt x t.end more in
      elim (Bool-cases (ltb (length t.mapped) (tile_source t x + run_length t x))) [
        | inl short ↦
            let short' = ltb→lt (length t.mapped) (tile_source t x + run_length t x) short in
            rw (more, copy_run-short t x offset target short')
              (refused_run t x offset target less short')
        | inr fits ↦
            let fits' = ltb→le (length t.mapped) (tile_source t x + run_length t x) fits in
            let bounds = run_length_bounds t x less in
            let room' : offset + run_length t x ≤ length target = omega (arith, bounds, room) in
            rw (more, copy_run-done t x offset target fits' room')
              (run_result t x offset target _ fits' room' less (
                copy_runs-result fuel t (x + run_length t x) (offset + run_length t x)
                  (after_run t x offset target) (omega (arith, bounds, enough))
                  (omega (arith, bounds, room, length-after_run t x offset target fits' room'))))
      ]
  | inr over ↦ rw over (nothing_left t x offset target (ltb→le x t.end over))
]
