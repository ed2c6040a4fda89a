-- ===== src/Cursor/Consumes/Readers.antt =====
-- What the readers of the cursor take on any bytes.
use native.Mathlib.Decide.{dec_le}
use limnifs_py.Prelude.{
  ℕ, ◌^◌, ◌≤◌, ◌<◌, ◌≡◌, refl, sym, subst, List, [], ◌∷◌, ◌++◌, append-nil, arith, length,
  length-append, take, drop, get_or, length-take, take-append-drop, All, All-append_left,
}
use limnifs_py.Errors.{ok, err, truncated}
use limnifs_py.Wire.{IsByte, le_bytes, le_bytes-unpack_le, unpack_le, unpack_le-lt}
use limnifs_py.Cursor.{
  pure, ◌>>=◌, remaining_len, read, read_u8, read_u16_le, read_u32_le, read_u64_le, read_magic,
}
use limnifs_py.Cursor.Reads.{cursor_at, Reads-read}
use limnifs_py.Cursor.Consumes.Rules.{accepted, rejected, Consumes, Consumes-pure, Consumes-bind}

-- `read` takes exactly the bytes that it returns.
abbrev pub Chunk : ℕ → List ℕ → List ℕ → Type 0
Chunk n bs a = (bs ≡ a) × (length a ≡ n) × All IsByte a

read-enough :
    (n : ℕ) (before rest : List ℕ)
    → n ≤ length rest
    → read n (cursor_at before rest)
      ≡ ok (take n rest, cursor_at (before ++ take n rest) (drop n rest))
read-enough n before rest h =
    let size : length (take n rest) ≡ n = omega (arith, length-take n rest) in
    subst
      (λ r.
        read n (cursor_at before r)
        ≡ ok (take n rest, cursor_at (before ++ take n rest) (drop n rest)))
      (take-append-drop n rest) ((Reads-read n (take n rest) size).whole before (drop n rest))

read-short :
    (n : ℕ) (before rest : List ℕ)
    → length rest < n
    → read n (cursor_at before rest) ≡ err (truncated (remaining_len (cursor_at before rest)) n)
unfolding read
read-short n before rest h = ground (arith, length-append before rest)

pub Consumes-read : (n : ℕ) → Consumes (read n) (Chunk n)
Consumes-read n = record {
  run = λ before rest h. elim (dec_le n (length rest)) [
    | yes enough ↦ rw (read-enough n before rest enough) (
        accepted (take n rest) (drop n rest) (sym (take-append-drop n rest)) (
          refl,
          omega (arith, length-take n rest),
          All-append_left IsByte (take n rest) (drop n rest)
              (subst (All IsByte) (sym (take-append-drop n rest)) h),
        ))
    | no short ↦ rw (read-short n before rest (omega arith)) (rejected tt)
  ];
}

-- A `w`-byte integer and its bytes.
abbrev pub Encodes : ℕ → List ℕ → ℕ → Type 0
Encodes w bs n = (bs ≡ le_bytes w n) × (n < 256 ^ w)

le_bytes-Chunk : (w : ℕ) (bs a : List ℕ) → Chunk w bs a → Encodes w (bs ++ []) (unpack_le a)
le_bytes-Chunk w bs a (e, size, bytes) = (
  rw (append-nil bs, e, ← size, le_bytes-unpack_le a bytes),
  subst (λ (k : ℕ). unpack_le a < 256 ^ k) size (unpack_le-lt a bytes),
)

Consumes-unpack : (w : ℕ) → Consumes (read w >>= λ chunk. pure (unpack_le chunk)) (Encodes w)
Consumes-unpack w =
    Consumes-bind (Consumes-read w) λ bs a q. Consumes-pure _ (le_bytes-Chunk w bs a q)

pub Consumes-read_u8 : Consumes read_u8 (λ bs n. (bs ≡ n ∷ []) × (n < 256))
unfolding read_u8
Consumes-read_u8 = Consumes-bind (Consumes-read 1) λ bs a q. Consumes-pure _ (single a bs q)
  where
    single : (a bs : List ℕ) → Chunk 1 bs a → (bs ++ [] ≡ get_or a 0 0 ∷ []) × (get_or a 0 0 < 256)
    single [] bs q = absurd (omega (arith, q.1))
    single (x ∷ []) bs q = (rw (append-nil bs) (q.0), q.2.0)
    single (x ∷ y ∷ a) bs q = absurd (omega (arith, q.1))

pub Consumes-read_u16_le : Consumes read_u16_le (Encodes 2)
unfolding read_u16_le
Consumes-read_u16_le = Consumes-unpack 2

pub Consumes-read_u32_le : Consumes read_u32_le (Encodes 4)
unfolding read_u32_le
Consumes-read_u32_le = Consumes-unpack 4

pub Consumes-read_u64_le : Consumes read_u64_le (Encodes 8)
unfolding read_u64_le
Consumes-read_u64_le = Consumes-unpack 8

pub Consumes-read_magic : Consumes read_magic (Chunk 4)
unfolding read_magic
Consumes-read_magic = Consumes-read 4
