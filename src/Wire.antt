-- ===== src/Wire.antt =====
-- The little-endian integers of `struct` and `int.to_bytes`, as the package uses them.
use native.Mathlib.Nat.{pow-suc}
use limnifs_py.Prelude.{
  ℕ, zero, suc, ◌+◌, ◌*◌, ◌/◌, ◌%◌, ◌^◌, ◌<◌, ◌≡◌, refl, List, [], ◌∷◌, ◌++◌, arith, length, All,
  ltb, if◌then◌else◌,
}
use limnifs_py.Errors.{Result, ok, err, struct_error, overflow_error, value_error, ◌>>=◌}

abbrev pub IsByte : ℕ → Type 0
IsByte b = b < 256

-- The `w` bytes of `n`, lowest first.
unfoldable pub le_bytes : ℕ → ℕ → List ℕ
le_bytes zero n = []
le_bytes (suc w) n = (n % 256) ∷ le_bytes w (n / 256)

-- `unpack("<…", raw)[0]` for one unsigned integer as wide as `raw`.
unfoldable pub unpack_le : List ℕ → ℕ
unpack_le [] = 0
unpack_le (b ∷ bs) = b + 256 * unpack_le bs

-- `pack("<…", n)` for one unsigned integer of `w` bytes: struct.error if it does not fit.
unfoldable pub pack_le : ℕ → ℕ → Result (List ℕ)
pack_le w n = if ltb n (256 ^ w) then ok (le_bytes w n) else err struct_error

-- `n.to_bytes(w, "little")`: OverflowError if it does not fit.
unfoldable pub to_bytes_le : ℕ → ℕ → Result (List ℕ)
to_bytes_le w n = if ltb n (256 ^ w) then ok (le_bytes w n) else err overflow_error

-- `out.append(b)` on a bytearray: ValueError if it is no byte.
unfoldable pub append_byte : List ℕ → ℕ → Result (List ℕ)
append_byte out b = if ltb b 256 then ok (out ++ b ∷ []) else err value_error

-- `pack("<HHH", a, b, c)`
unfoldable pub pack_hhh : ℕ → ℕ → ℕ → Result (List ℕ)
unfolding pack_le
pack_hhh a b c = do x ← pack_le 2 a; y ← pack_le 2 b; z ← pack_le 2 c; ok (x ++ (y ++ z))

pub length-le_bytes : (w n : ℕ) → length (le_bytes w n) ≡ w
unfolding le_bytes
length-le_bytes zero n = refl
length-le_bytes (suc w) n = omega (arith, length-le_bytes w (n / 256))

pub le_bytes-IsByte : (w n : ℕ) → All IsByte (le_bytes w n)
unfolding le_bytes
le_bytes-IsByte zero n = tt
le_bytes-IsByte (suc w) n = (omega arith, le_bytes-IsByte w (n / 256))

-- An integer that fits comes back.
pub unpack_le-le_bytes : (w n : ℕ) → n < 256 ^ w → unpack_le (le_bytes w n) ≡ n
unfolding unpack_le le_bytes
unpack_le-le_bytes zero n h = omega arith
unpack_le-le_bytes (suc w) n h =
    omega (arith, unpack_le-le_bytes w (n / 256) (omega (arith, pow-suc 256 w)))

pub unpack_le-lt : (bs : List ℕ) → All IsByte bs → unpack_le bs < 256 ^ length bs
unfolding unpack_le
unpack_le-lt [] h = omega arith
unpack_le-lt (b ∷ bs) h = omega (arith, unpack_le-lt bs h.1, h.0, pow-suc 256 (length bs))

-- Bytes come back.
pub le_bytes-unpack_le : (bs : List ℕ) → All IsByte bs → le_bytes (length bs) (unpack_le bs) ≡ bs
unfolding unpack_le le_bytes
le_bytes-unpack_le [] h = refl
le_bytes-unpack_le (b ∷ bs) h =
    let low : (b + 256 * unpack_le bs) % 256 ≡ b = omega (arith, h.0) in
    let high : (b + 256 * unpack_le bs) / 256 ≡ unpack_le bs = omega (arith, h.0) in
    rw (low, high, le_bytes-unpack_le bs h.1)

-- `pack` succeeds exactly where the integer fits.
pub pack_le-ok : (w n : ℕ) → n < 256 ^ w → pack_le w n ≡ ok (le_bytes w n)
unfolding pack_le
pack_le-ok w n h = ground arith

pub ok-pack_le : (w n : ℕ) {bs : List ℕ} → pack_le w n ≡ ok bs → (n < 256 ^ w) × (bs ≡ le_bytes w n)
unfolding pack_le
ok-pack_le w n h = ground arith

pub to_bytes_le-ok : (w n : ℕ) → n < 256 ^ w → to_bytes_le w n ≡ ok (le_bytes w n)
unfolding to_bytes_le
to_bytes_le-ok w n h = ground arith

pub append_byte-ok : (out : List ℕ) (b : ℕ) → b < 256 → append_byte out b ≡ ok (out ++ b ∷ [])
unfolding append_byte
append_byte-ok out b h = ground arith
