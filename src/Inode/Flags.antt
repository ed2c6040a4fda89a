-- ===== src/Inode/Flags.antt =====
-- The flag bits of an inode, over the whole range of a byte.
use limnifs_py.Prelude.{
  ℕ, zero, suc, ◌+◌, ◌<◌, ◌≡◌, refl, Bool, true, false, ◌&&◌, ◌||◌, arith, ◌==◌, ==_iff,
  if◌then◌else◌,
}
use limnifs_py.Inode.{has_bits}

-- Bit 0 is the access time's, bit 1 the attributes', bit 2 the inline data's.
abbrev pub flags_byte : Bool → Bool → Bool → ℕ
flags_byte atime xattrs inlined =
    (if atime then 1 else 0) + ((if xattrs then 2 else 0) + (if inlined then 4 else 0))

-- Every number below a bound passes a test.
all_below : ℕ → (ℕ → Bool) → Bool
all_below zero test = true
all_below (suc n) test = test n && all_below n test

all_below_sound :
    (n : ℕ) (test : ℕ → Bool) (x : ℕ) → all_below n test ≡ true → x < n → test x ≡ true
unfolding all_below
all_below_sound zero test x h lt = absurd (omega arith)
all_below_sound (suc n) test x h lt = ground (arith, all_below_sound n test x)

pub flags_byte-lt : (a x i : Bool) → flags_byte a x i < 256
flags_byte-lt a x i = ground arith

pub flags_byte-reserved : (a x i : Bool) → has_bits (flags_byte a x i) 0xf8 ≡ false
unfolding has_bits
flags_byte-reserved true true true = refl
flags_byte-reserved true true false = refl
flags_byte-reserved true false true = refl
flags_byte-reserved true false false = refl
flags_byte-reserved false true true = refl
flags_byte-reserved false true false = refl
flags_byte-reserved false false true = refl
flags_byte-reserved false false false = refl

pub flags_byte-bits :
    (a x i : Bool)
    → (has_bits (flags_byte a x i) 1 ≡ a)
      × (has_bits (flags_byte a x i) 2 ≡ x)
      × (has_bits (flags_byte a x i) 4 ≡ i)
unfolding has_bits
flags_byte-bits true true true = (refl, refl, refl)
flags_byte-bits true true false = (refl, refl, refl)
flags_byte-bits true false true = (refl, refl, refl)
flags_byte-bits true false false = (refl, refl, refl)
flags_byte-bits false true true = (refl, refl, refl)
flags_byte-bits false true false = (refl, refl, refl)
flags_byte-bits false false true = (refl, refl, refl)
flags_byte-bits false false false = (refl, refl, refl)

byte_table :
    all_below 256
      (λ f. has_bits f 0xf8 || f == flags_byte (has_bits f 1) (has_bits f 2) (has_bits f 4))
    ≡ true
unfolding all_below has_bits
byte_table = refl

-- A byte without reserved bits is the byte of its three flags.
pub flags_byte-of_bits :
    (f : ℕ)
    → f < 256
    → has_bits f 0xf8 ≡ false
    → f ≡ flags_byte (has_bits f 1) (has_bits f 2) (has_bits f 4)
flags_byte-of_bits f h free = (==_iff f _).0 (ground (arith, all_below_sound 256 _ f byte_table h))
