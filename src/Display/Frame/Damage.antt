-- ===== src/Display/Frame/Damage.antt =====
-- crates/display-stream/src/frame.rs: the damage rectangle under `merge_damage`.
use machineemu.Prelude.{ℕ, ◌+◌, ◌≤◌, ◌<◌, ◌≡◌, min, max, Option, none, some, arith}
use machineemu.Display.{add_u32, sub_u32, u32_mod}
use machineemu.Display.Frame.{Rect, Frame, merge_damage}
use machineemu.Display.Frame.Copied.{IsSized, Inside}

-- The second rectangle lies in the first.
pub record Contains (s r : Rect) : Type 0 where
  pub left : s.left ≤ r.left
  pub top : s.top ≤ r.top
  pub right : r.left + r.wide ≤ s.left + s.wide
  pub bottom : r.top + r.high ≤ s.top + s.high

abbrev pub ContainsDamage : Rect → Option Rect → Type 0
ContainsDamage s none = Unit
ContainsDamage s (some r) = Contains s r

abbrev pub DamageInside : Option Rect → Frame → Type 0
DamageInside none f = Unit
DamageInside (some r) f = Inside r f

-- Both edges of a merged side, where nothing wraps.
merged_side :
    (a m b n limit : ℕ)
    → a + m ≤ limit
    → b + n ≤ limit
    → limit < u32_mod
    → min a b + sub_u32 (max (add_u32 a m) (add_u32 b n)) (min a b) ≡ max (a + m) (b + n)
merged_side a m b n limit h k less = omega arith

module _ (f : Frame) (s : IsSized f) (new : Rect) (ni : Inside new f) where
  pub merge_damage-Inside :
      (old : Option Rect) → DamageInside old f → Inside (merge_damage old new) f
  unfolding merge_damage
  merge_damage-Inside none oi = ni
  merge_damage-Inside (some old) oi = record {
    right = omega (
      arith,
      merged_side old.left old.wide new.left new.wide f.width oi.right ni.right
          (omega (arith, s.row_u32)),
    );
    bottom = omega (
      arith,
      merged_side old.top old.high new.top new.high f.height oi.bottom ni.bottom s.height_u32,
    );
  }

  -- It holds the new rectangle and the old one, and any rectangle that does holds it.
  pub merge_damage-Contains :
      (old : Option Rect)
      → DamageInside old f
      → Contains (merge_damage old new) new
        × ContainsDamage (merge_damage old new) old
        × ((box : Rect)
            → Contains box new
            → ContainsDamage box old
            → Contains box (merge_damage old new))
  unfolding merge_damage
  merge_damage-Contains none oi = (ground arith, tt, λ box cn co. cn)
  merge_damage-Contains (some old) oi =
      let across =
        merged_side old.left old.wide new.left new.wide f.width oi.right ni.right
          (omega (arith, s.row_u32)) in
      let down =
        merged_side old.top old.high new.top new.high f.height oi.bottom ni.bottom s.height_u32 in
      (
        omega (arith, across, down),
        omega (arith, across, down),
        λ box cn co. omega (arith, across, down, cn.left),
      )
