-- ===== src/Inode/Attributes.antt =====
-- The optional parts of an inode, the access time and the attributes, against their layout.
use limnifs_py.Prelude.{
  ℕ, ◌^◌, ◌≤◌, ◌<◌, ◌≡◌, refl, sym, ap, ◌∙◌, Bool, true, false, Option, none, some, List, [], ◌∷◌,
  ◌++◌, append-nil, arith, length, flat_map, All, NotIn, contains→NotIn, NotIn→contains, nat_eq,
}
use limnifs_py.Wire.{le_bytes}
use limnifs_py.Utf8.{encode, decode_text}
use limnifs_py.Utf8.Laws.{IsScalar, decode_text_lem, decode_text_ok, decode_text_err}
use limnifs_py.Cursor.Reads.{
  Reads, Reads-pure, Reads-bind, Reads-cast, Reads-raise_if, Reads-lift, Reads-read, Reads-read_u8,
  Reads-read_u32_le, Reads-read_u64_le,
}
use limnifs_py.Cursor.Consumes.{
  Consumes, Consumes-pure, Consumes-bind, Consumes-raise_if, Consumes-lift, Consumes-read,
  Consumes-weaken, Consumes-read_u8, Consumes-read_u32_le, Consumes-read_u64_le,
}
use limnifs_py.Cursor.Loop.{Reads-for_each, Consumes-for_each}
use limnifs_py.Inode.{XAttr, parse_xattr, parse_xattr_block, parse_atime, parse_xattrs}

-- `x is not None`
abbrev pub is_some : Option ℕ → Bool
is_some none = false
is_some (some x) = true

-- The namespace, the key with its length, the value with its length.
abbrev pub xattr_bytes : XAttr → List ℕ
xattr_bytes a =
    a.namespace
    ∷ (le_bytes 4 (length (encode a.key))
        ++ (encode a.key ++ (le_bytes 4 (length a.value) ++ a.value)))

pub record IsXattr (a : XAttr) : Type 0 where
  pub highest_namespace : a.namespace ≤ 3
  pub text : All IsScalar a.key
  pub no_nul : NotIn a.key 0
  pub key_fits : length (encode a.key) < 2 ^ 32
  pub value_fits : length a.value < 2 ^ 32

-- With the flag the attributes stand after their number, without it there are none.
abbrev pub xattrs_bytes : Bool → List XAttr → List ℕ
xattrs_bytes true xattrs = le_bytes 4 (length xattrs) ++ flat_map xattr_bytes xattrs
xattrs_bytes false xattrs = []

abbrev pub IsXattrs : Bool → List XAttr → Type 0
IsXattrs true xattrs = (length xattrs < 2 ^ 32) × All IsXattr xattrs
IsXattrs false xattrs = xattrs ≡ []

abbrev pub atime_bytes : Option ℕ → List ℕ
atime_bytes none = []
atime_bytes (some ns) = le_bytes 8 ns

abbrev pub IsAtime : Option ℕ → Type 0
IsAtime none = Unit
IsAtime (some ns) = ns < 2 ^ 64

IsXattr-Reads : (a : XAttr) → IsXattr a → Reads parse_xattr (xattr_bytes a) a
unfolding parse_xattr
IsXattr-Reads a v = Reads-bind _ (Reads-read_u8 a.namespace (omega (arith, v.highest_namespace))) (
    Reads-bind _ (Reads-raise_if _ (ground (arith, v.highest_namespace))) (
      Reads-bind _ (Reads-read_u32_le _ v.key_fits) (
        Reads-bind _ (Reads-read _ (encode a.key) refl) (
          Reads-bind _ (Reads-lift (decode_text_lem a.key v.text)) (
            Reads-bind _ (Reads-raise_if _ (NotIn→contains 0 a.key v.no_nul)) (
              Reads-bind _ (Reads-read_u32_le _ v.value_fits) (
                Reads-cast (sym (append-nil a.value))
                  (Reads-bind _ (Reads-read _ a.value refl) (Reads-pure a)))))))))

IsXattr-Consumes : Consumes parse_xattr (λ bs a. (bs ≡ xattr_bytes a) × IsXattr a)
unfolding parse_xattr
IsXattr-Consumes = Consumes-bind Consumes-read_u8 λ bs namespace q.
    Consumes-raise_if _ _ tt λ known. Consumes-bind Consumes-read_u32_le λ bs1 key_len q1.
      Consumes-bind (Consumes-read key_len) λ bs2 raw q2.
        Consumes-lift (decode_text raw) (decode_text_err raw) λ key decoded.
          let (layout, text) = decode_text_ok raw key decoded in
          let size : key_len ≡ length (encode key) = sym (q2.1) ∙ ap length layout in
          Consumes-raise_if _ _ tt λ no_nul. Consumes-bind Consumes-read_u32_le λ bs3 value_len q3.
            Consumes-bind (Consumes-read value_len) λ bs4 value q4. Consumes-pure _ (
              simp (append-nil, q.0, q1.0, q2.0, layout, size, q3.0, q4.0, q4.1),
              record {
                highest_namespace = ground (arith, known);
                text = text;
                no_nul = contains→NotIn 0 key no_nul;
                key_fits = omega (arith, q1.1, size);
                value_fits = omega (arith, q3.1, q4.1);
              },
            )

pub xattrs-Reads :
    (listed : Bool) (xattrs : List XAttr)
    → IsXattrs listed xattrs
    → Reads (parse_xattrs listed) (xattrs_bytes listed xattrs) xattrs
unfolding parse_xattrs parse_xattr_block
xattrs-Reads true xattrs (fits, valid) =
    Reads-bind _ (Reads-read_u32_le _ fits)
      (Reads-for_each IsXattr _ xattr_bytes IsXattr-Reads xattrs valid)
xattrs-Reads false xattrs e = rw e (Reads-pure [])

pub xattrs-Consumes :
    (listed : Bool)
    → Consumes
        (parse_xattrs listed)
        (λ bs xattrs. (bs ≡ xattrs_bytes listed xattrs) × IsXattrs listed xattrs)
unfolding parse_xattrs parse_xattr_block
xattrs-Consumes true = Consumes-bind Consumes-read_u32_le λ bs count q.
    Consumes-weaken (Consumes-for_each IsXattr _ xattr_bytes IsXattr-Consumes count)
      λ bs1 xattrs q1. (simp (q.0, q1.0, q1.1), (omega (arith, q.1, q1.1), q1.2))
xattrs-Consumes false = Consumes-pure [] (refl, refl)

pub atime-Reads :
    (atime : Option ℕ)
    → IsAtime atime
    → Reads (parse_atime (is_some atime)) (atime_bytes atime) atime
unfolding parse_atime
atime-Reads none h = Reads-pure none
atime-Reads (some ns) h =
    Reads-cast (sym (append-nil (le_bytes 8 ns)))
      (Reads-bind _ (Reads-read_u64_le ns h) (Reads-pure (some ns)))

pub atime-Consumes :
    (present : Bool)
    → Consumes
        (parse_atime present)
        (λ bs atime. (bs ≡ atime_bytes atime) × IsAtime atime × (is_some atime ≡ present))
unfolding parse_atime
atime-Consumes true =
    Consumes-bind Consumes-read_u64_le
      λ bs ns q. Consumes-pure _ (simp (append-nil, q.0), q.1, refl)
atime-Consumes false = Consumes-pure none (refl, tt, refl)
