-- ===== src/Domain/Ids.antt =====
-- crates/machineemu-core/src/domain/mod.rs: what `Id::new` accepts.
use machineemu.Prelude.{
  ℕ, ◌≤◌, ◌<◌, ◌≡◌, ◌≢◌, refl, subst, String, true, List, [], ◌∷◌, length, All, Bool-cases, inl,
  inr, arith,
}
use machineemu.Prelude.Result.{Result, ok}
use machineemu.Domain.{is_lowercase, is_id_byte, all_id_bytes, is_valid_id, new_id}

-- A lowercase letter, a digit, a dot, an underscore or a dash.
abbrev pub IsIdByte : ℕ → Type 0
IsIdByte byte = is_id_byte byte ≡ true

all_id_bytes-All : (bytes : List ℕ) → all_id_bytes bytes ≡ true → All (λ b. b ≢ b'/') bytes
unfolding all_id_bytes
all_id_bytes-All [] h = tt
all_id_bytes-All (b ∷ bytes) h = (ground arith, all_id_bytes-All bytes (ground arith))

valid_facts :
    (first : ℕ) (rest : List ℕ)
    → is_valid_id (first ∷ rest) ≡ true
    → (length (first ∷ rest) ≤ 64)
      × (is_lowercase first ≡ true)
      × (all_id_bytes (first ∷ rest) ≡ true)
unfolding is_valid_id
valid_facts first rest h = ground arith

ok_value : {E A : Type 0} {a b : A} → ◌≡◌ {A = Result E A} (ok a) (ok b) → a ≡ b
ok_value h = cc h

-- An accepted identifier is the text that was given; it has 1 to 64 bytes, no slash among them, and
-- is neither `.` nor `..`, so that joining it to a directory names a child of that directory.
pub new_id-safe :
    (kind : String) (value id : List ℕ)
    → new_id kind value ≡ ok id
    → (id ≡ value)
      × (0 < length id)
      × (length id ≤ 64)
      × All (λ b. b ≢ b'/') id
      × (id ≢ b'.' ∷ [])
      × (id ≢ b'.' ∷ b'.' ∷ [])
unfolding new_id
new_id-safe kind [] id h = cc h
new_id-safe kind (first ∷ rest) id h = elim (Bool-cases (is_valid_id (first ∷ rest))) [
  | inl valid ↦
      let same : first ∷ rest ≡ id = ok_value (let kept = rw valid at h in kept) in
      let (short, lower, bytes) = valid_facts first rest valid in
      subst
        (λ l.
          (l ≡ first ∷ rest)
          × (0 < length l)
          × (length l ≤ 64)
          × All (λ b. b ≢ b'/') l
          × (l ≢ b'.' ∷ [])
          × (l ≢ b'.' ∷ b'.' ∷ []))
        same
        (
          refl,
          omega arith,
          short,
          all_id_bytes-All (first ∷ rest) bytes,
          (λ e. ground arith),
          (λ e. ground arith),
        )
  | inr bad ↦ absurd (let refused = rw bad at h in cc refused)
]
