-- ===== src/Protocol/Buf.antt =====
-- The integer readers and writers of the `bytes` crate (`Buf::get_u16`, `BufMut::put_u16` and the
-- like), which the framing calls and the repository does not contain. `IntCodec w` states what the
-- crate documents of an integer of `w` bytes; `big_endian` is a value that meets it.
use mathlib.Core.List.{reverse, reverse-cons, reverse-reverse}
use native.Mathlib.Nat.{pow-succ'}
use machineemu.Prelude.{
  ℕ, zero, suc, ◌+◌, ◌*◌, ◌/◌, ◌%◌, ◌^◌, ◌<◌, ◌≡◌, refl, ap, ◌∙◌, List, [], ◌∷◌, ◌++◌, length, take,
  drop, All, All-append, IsByte, length-append, take-append_eq, drop-append_eq, arith,
}

pub record IntCodec (width : ℕ) : Type 0 where
  pub put : ℕ → List ℕ
  pub get : List ℕ → ℕ × List ℕ
  pub length-put : (n : ℕ) → length (put n) ≡ width
  pub get-put : (n : ℕ) (rest : List ℕ) → n < 256 ^ width → get (put n ++ rest) ≡ (n, rest)
  -- A read takes the first `width` bytes away, and writing its value gives them back.
  pub put-get :
      (bytes rest : List ℕ)
      → length bytes ≡ width
      → All IsByte bytes
      → (n : ℕ) × (get (bytes ++ rest) ≡ (n, rest)) × (n < 256 ^ width) × (put n ≡ bytes)

pub record ByteBuf : Type 0 where
  pub u8 : IntCodec 1
  pub u16 : IntCodec 2
  pub u32 : IntCodec 4
  pub u64 : IntCodec 8

-- The least significant byte first, which the recursion follows; `reverse` turns it round.
le_put : ℕ → ℕ → List ℕ
le_put zero n = []
le_put (suc k) n = n % 256 ∷ le_put k (n / 256)

le_value : List ℕ → ℕ
le_value [] = 0
le_value (b ∷ bs) = b + 256 * le_value bs

length-le_put : (k n : ℕ) → length (le_put k n) ≡ k
unfolding le_put
length-le_put zero n = refl
length-le_put (suc k) n = ap suc (length-le_put k (n / 256))

le_value-le_put : (k n : ℕ) → n < 256 ^ k → le_value (le_put k n) ≡ n
unfolding le_put le_value
le_value-le_put zero n h = omega arith
le_value-le_put (suc k) n h =
    let less : n / 256 < 256 ^ k = omega (arith, pow-succ' 256 k) in
    let same : le_value (le_put k (n / 256)) ≡ n / 256 = le_value-le_put k (n / 256) less in
    omega arith

low_byte : (b v : ℕ) → b < 256 → (b + 256 * v) % 256 ≡ b
low_byte b v h = omega arith

high_bytes : (b v : ℕ) → b < 256 → (b + 256 * v) / 256 ≡ v
high_bytes b v h = omega arith

le_put-le_value :
    (k : ℕ) (bs : List ℕ) → length bs ≡ k → All IsByte bs → le_put k (le_value bs) ≡ bs
unfolding le_put le_value
le_put-le_value zero [] h a = refl
le_put-le_value zero (b ∷ bs) h a = absurd (omega arith)
le_put-le_value (suc k) [] h a = absurd (omega arith)
le_put-le_value (suc k) (b ∷ bs) h a = rw (
  low_byte b (le_value bs) a.0,
  high_bytes b (le_value bs) a.0,
  le_put-le_value k bs (omega arith) a.1,
)

le_value-lt : (k : ℕ) (bs : List ℕ) → length bs ≡ k → All IsByte bs → le_value bs < 256 ^ k
unfolding le_value
le_value-lt zero [] h a = omega arith
le_value-lt zero (b ∷ bs) h a = absurd (omega arith)
le_value-lt (suc k) [] h a = absurd (omega arith)
le_value-lt (suc k) (b ∷ bs) h a =
    let less : le_value bs < 256 ^ k = le_value-lt k bs (omega arith) a.1 in
    omega (arith, pow-succ' 256 k)

length-reverse : (bs : List ℕ) → length (reverse bs) ≡ length bs
length-reverse [] = refl
length-reverse (b ∷ bs) =
    rw reverse-cons (omega (arith, length-append (reverse bs) (b ∷ []), length-reverse bs))

All-reverse : (bs : List ℕ) → All IsByte bs → All IsByte (reverse bs)
All-reverse [] a = tt
All-reverse (b ∷ bs) a =
    rw reverse-cons (All-append IsByte (reverse bs) (b ∷ []) (All-reverse bs a.1) (a.0, tt))

pub be_put : ℕ → ℕ → List ℕ
be_put k n = reverse (le_put k n)

pub be_get : ℕ → List ℕ → ℕ × List ℕ
be_get k bytes = (le_value (reverse (take k bytes)), drop k bytes)

pub length-be_put : (k n : ℕ) → length (be_put k n) ≡ k
unfolding be_put
length-be_put k n = length-reverse (le_put k n) ∙ length-le_put k n

be_get-append :
    (k : ℕ) (bytes rest : List ℕ)
    → length bytes ≡ k
    → be_get k (bytes ++ rest) ≡ (le_value (reverse bytes), rest)
unfolding be_get
be_get-append k bytes rest h = rw (take-append_eq k bytes rest h, drop-append_eq k bytes rest h)

pub be_get-be_put :
    (k n : ℕ) (rest : List ℕ) → n < 256 ^ k → be_get k (be_put k n ++ rest) ≡ (n, rest)
be_get-be_put k n rest h =
    be_get-append k (be_put k n) rest (length-be_put k n)
    ∙ unfold be_put in rw (reverse-reverse, le_value-le_put k n h)

pub be_put-be_get :
    (k : ℕ) (bytes rest : List ℕ)
    → length bytes ≡ k
    → All IsByte bytes
    → (n : ℕ) × (be_get k (bytes ++ rest) ≡ (n, rest)) × (n < 256 ^ k) × (be_put k n ≡ bytes)
unfolding be_put
be_put-be_get k bytes rest h a =
    let sized : length (reverse bytes) ≡ k = length-reverse bytes ∙ h in
    let typed : All IsByte (reverse bytes) = All-reverse bytes a in
    (
      le_value (reverse bytes),
      be_get-append k bytes rest h,
      le_value-lt k (reverse bytes) sized typed,
      rw (le_put-le_value k (reverse bytes) sized typed) (reverse-reverse bytes),
    )

be_codec : (k : ℕ) → IntCodec k
unfolding be_put be_get
be_codec k = record {
  put = be_put k;
  get = be_get k;
  length-put = length-be_put k;
  get-put = be_get-be_put k;
  put-get = be_put-be_get k;
}

-- The network byte order, which is what the crate's methods use.
unfoldable pub big_endian : ByteBuf
unfolding be_codec be_put be_get le_put le_value
big_endian = record { u8 = be_codec 1; u16 = be_codec 2; u32 = be_codec 4; u64 = be_codec 8 }
