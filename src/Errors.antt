-- ===== src/Errors.antt =====
-- limnifs/error.py: the exceptions, and the outcome of code that may raise one.
use limnifs_py.Prelude.{ℕ, ◌≡◌, subst, List}

-- The subclasses of `ParseError` with their attributes, and below them the built-in `ValueError`,
-- `struct.error` and `OverflowError`, which the parsers must not let through. Message texts are
-- left out. `out_of_fuel` is no exception of Python: a loop of the model ran out of rounds.
pub data Error : Type 0 where
  truncated : (have need : ℕ) → Error
  bad_magic : (found expected : List ℕ) → Error
  corrupt : Error
  unsupported : Error
  value_error : Error
  struct_error : Error
  overflow_error : Error
  out_of_fuel : Error

-- The class of the exception is `ParseError` or below it.
abbrev pub IsParseError : Error → Type 0
IsParseError value_error = ⊥
IsParseError struct_error = ⊥
IsParseError overflow_error = ⊥
IsParseError out_of_fuel = ⊥
IsParseError _ = Unit

pub IsParseError-eq : {e e' : Error} → e' ≡ e → IsParseError e' → IsParseError e
IsParseError-eq h p = subst IsParseError h p

pub data Result {ℓ} (A : Type ℓ) : Type ℓ where
  ok : A → Result A
  err : Error → Result A

pub ok-injective {ℓ} : {A : Type ℓ} {a b : A} → ok a ≡ ok b → a ≡ b
ok-injective h = cc

infixl 5 ◌>>=◌
abbrev pub ◌>>=◌ {ℓ κ} : {A : Type ℓ} {B : Type κ} → Result A → (A → Result B) → Result B
◌>>=◌ (ok value) next = next value
◌>>=◌ (err raised) next = err raised

abbrev pub map_ok {ℓ κ} : {A : Type ℓ} {B : Type κ} → (A → B) → Result A → Result B
map_ok f (ok a) = ok (f a)
map_ok f (err e) = err e
