-- ===== src/Display.antt =====
-- The display streamer, crates/display-stream/src: the framebuffer of frame.rs and the callbacks
-- of listener.rs. A callback that would index out of bounds panics in Rust; `Outcome` keeps that
-- apart from the errors that the code returns. Arithmetic on `u32` wraps, as in a release build.
pub mod Frame
pub mod Tiled
pub mod Capture
pub mod Callbacks
mod Examples
use machineemu.Prelude.{
  ℕ, ◌+◌, ◌-◌, ◌*◌, ◌%◌, ◌^◌, ◌<◌, ◌≡◌, refl, Option, none, some, ltb, if◌then◌else◌,
}

pub data FrameError : Type 0 where
  format : ℕ → FrameError
  geometry outside short_data : FrameError

pub data Outcome (A : Type 0) : Type 0 where
  done : A → Outcome A
  failed : FrameError → Outcome A
  panicked : Outcome A

infixl 5 ◌>>=◌ ◌>>◌
abbrev pub ◌>>=◌ : {A B : Type 0} → Outcome A → (A → Outcome B) → Outcome B
panicked >>= next = panicked
failed error >>= next = failed error
done value >>= next = next value

abbrev pub ◌>>◌ : {B : Type 0} → Outcome (Unit {0}) → Outcome B → Outcome B
m >> k = m >>= λ _. k

-- An index or a slice that may be out of bounds.
abbrev pub or_panic : {A : Type 0} → Option A → Outcome A
or_panic none = panicked
or_panic (some a) = done a

abbrev pub or_fail : {A : Type 0} → Option A → FrameError → Outcome A
or_fail none e = failed e
or_fail (some a) e = done a

abbrev pub u32_mod : ℕ
u32_mod = 2 ^ 32

abbrev pub u64_mod : ℕ
u64_mod = 2 ^ 64

abbrev pub add_u32 : ℕ → ℕ → ℕ
add_u32 a b = (a + b) % u32_mod

abbrev pub sub_u32 : ℕ → ℕ → ℕ
sub_u32 a b = (a + u32_mod - b) % u32_mod

abbrev pub mul_u32 : ℕ → ℕ → ℕ
mul_u32 a b = a * b % u32_mod

-- `u32::checked_add` and `usize::checked_mul`.
abbrev pub checked_add_u32 : ℕ → ℕ → Option ℕ
checked_add_u32 a b = if ltb (a + b) u32_mod then some (a + b) else none

abbrev pub checked_mul : ℕ → ℕ → Option ℕ
checked_mul a b = if ltb (a * b) u64_mod then some (a * b) else none

-- `usize::checked_add`.
abbrev pub checked_add : ℕ → ℕ → Option ℕ
checked_add a b = if ltb (a + b) u64_mod then some (a + b) else none
