-- ===== src/Prelude/Words.antt =====
-- Texts: Python's `str` of an integer and `int` of a text, over the native strings.
use Prim.Native.Char.{code}
use Prim.Native.String.{String, ◌++◌ as ◌<>◌}
use Prim.Native.Nat.{ℕ, zero, suc, ◌+◌, ◌-◌, ◌*◌, ◌/◌, ◌%◌, ◌<◌}
use mathlib.Core.Path.{◌≡◌, refl}
use mathlib.Core.Bool.{◌&&◌}
use mathlib.Core.Logic.{◌≢◌, inl, inr}
use mathlib.Core.Option.{Option, none, some}
use native.Mathlib.Omega.{arith}
use text.Mathlib.TextLemmas.{nil-append, cons-append, cons-ne-nil}
use any2helios_db.Prelude.Tests.{◌==◌, leb, ltb, if◌then◌else◌, Bool-cases}
use any2helios_db.Prelude.Int.{ℤ, pos, negsuc}

digit : ℕ → String
digit zero = "0"
digit (suc zero) = "1"
digit (suc (suc zero)) = "2"
digit (suc (suc (suc zero))) = "3"
digit (suc (suc (suc (suc zero)))) = "4"
digit (suc (suc (suc (suc (suc zero))))) = "5"
digit (suc (suc (suc (suc (suc (suc zero)))))) = "6"
digit (suc (suc (suc (suc (suc (suc (suc zero))))))) = "7"
digit (suc (suc (suc (suc (suc (suc (suc (suc zero)))))))) = "8"
digit _ = "9"

-- The digits of `n`; a number has fewer than `n + 1` of them, so `n + 1` rounds are enough.
digits_of : ℕ → ℕ → String
digits_of zero n = ""
digits_of (suc f) n =
    let rest = digits_of f (n / 10) in if ltb n 10 then digit n else rest <> digit (n % 10)

-- `str(n)`
pub str_int : ℤ → String
unfolding digits_of digit
str_int (pos n) = digits_of (suc n) n
str_int (negsuc n) = "-" <> digits_of (suc (suc n)) (suc n)

-- The value of a run of digits, read from the left.
read_digits : ℕ → String → Option ℕ
read_digits acc String.[] = some acc
read_digits acc (String.◌∷◌ c s) =
    let rest = read_digits (acc * 10 + (code c - 48)) s in
    if leb 48 (code c) && leb (code c) 57 then rest else none

negate : ℕ → ℤ
negate zero = pos 0
negate (suc n) = negsuc n

-- The number that a text without its sign stands for.
signed : (ℕ → ℤ) → String → Option ℤ
signed f String.[] = none
signed f s = elim (read_digits 0 s) [ none ↦ none | some n ↦ some (f n) ]

-- `int(s)` on the texts that `str` writes: an optional minus sign and digits.
pub int_text : String → Option ℤ
unfolding signed negate
int_text String.[] = none
int_text (String.◌∷◌ c s) = if code c == 45 then signed negate s else signed pos (String.◌∷◌ c s)

read_digits-append :
    (acc m : ℕ) (s t : String)
    → read_digits acc s ≡ some m
    → read_digits acc (s <> t) ≡ read_digits m t
unfolding read_digits
read_digits-append acc m String.[] t h = rw nil-append (ground arith)
read_digits-append acc m (String.◌∷◌ c s) t h =
    rw cons-append (ground (arith, read_digits-append (acc * 10 + (code c - 48)) m s t))

read_digits-digit : (acc d : ℕ) → d < 10 → read_digits acc (digit d) ≡ some (acc * 10 + d)
unfolding read_digits digit
read_digits-digit acc zero h = refl
read_digits-digit acc (suc zero) h = refl
read_digits-digit acc (suc (suc zero)) h = refl
read_digits-digit acc (suc (suc (suc zero))) h = refl
read_digits-digit acc (suc (suc (suc (suc zero)))) h = refl
read_digits-digit acc (suc (suc (suc (suc (suc zero))))) h = refl
read_digits-digit acc (suc (suc (suc (suc (suc (suc zero)))))) h = refl
read_digits-digit acc (suc (suc (suc (suc (suc (suc (suc zero))))))) h = refl
read_digits-digit acc (suc (suc (suc (suc (suc (suc (suc (suc zero)))))))) h = refl
read_digits-digit acc (suc (suc (suc (suc (suc (suc (suc (suc (suc zero))))))))) h = refl
read_digits-digit acc (suc (suc (suc (suc (suc (suc (suc (suc (suc (suc d)))))))))) h =
    absurd (omega arith)

read_digits-digits_of : (f n : ℕ) → n < f → read_digits 0 (digits_of f n) ≡ some n
unfolding digits_of
read_digits-digits_of zero n h = elim h [ ]
read_digits-digits_of (suc f) n h = elim (Bool-cases (ltb n 10)) [
  | inl small ↦ rw small (ground (arith, read_digits-digit 0 n))
  | inr more ↦
      rw
        (
          more,
          read_digits-append 0 (n / 10) (digits_of f (n / 10)) (digit (n % 10))
              (read_digits-digits_of f (n / 10) (ground arith)),
        )
        (ground (arith, read_digits-digit (n / 10) (n % 10)))
]

digit-ne-empty : (d : ℕ) → digit d ≢ ""
unfolding digit
digit-ne-empty zero h = cons-ne-nil _ _ h
digit-ne-empty (suc zero) h = cons-ne-nil _ _ h
digit-ne-empty (suc (suc zero)) h = cons-ne-nil _ _ h
digit-ne-empty (suc (suc (suc zero))) h = cons-ne-nil _ _ h
digit-ne-empty (suc (suc (suc (suc zero)))) h = cons-ne-nil _ _ h
digit-ne-empty (suc (suc (suc (suc (suc zero))))) h = cons-ne-nil _ _ h
digit-ne-empty (suc (suc (suc (suc (suc (suc zero)))))) h = cons-ne-nil _ _ h
digit-ne-empty (suc (suc (suc (suc (suc (suc (suc zero))))))) h = cons-ne-nil _ _ h
digit-ne-empty (suc (suc (suc (suc (suc (suc (suc (suc zero)))))))) h = cons-ne-nil _ _ h
digit-ne-empty _ h = cons-ne-nil _ _ h

append-ne-empty : (s t : String) → t ≢ "" → s <> t ≢ ""
append-ne-empty String.[] t h e = h (rw nil-append at e)
append-ne-empty (String.◌∷◌ c s) t h e = cons-ne-nil c (s <> t) (rw cons-append at e)

digits_of-ne-empty : (f n : ℕ) → digits_of (suc f) n ≢ ""
unfolding digits_of
digits_of-ne-empty f n = elim (Bool-cases (ltb n 10)) [
  | inl small ↦ rw small (digit-ne-empty n)
  | inr more ↦
      rw more (append-ne-empty (digits_of f (n / 10)) (digit (n % 10)) (digit-ne-empty (n % 10)))
]

signed-digits :
    (f : ℕ → ℤ) (n : ℕ) (s : String) → s ≢ "" → read_digits 0 s ≡ some n → signed f s ≡ some (f n)
unfolding signed
signed-digits f n String.[] h e = absurd (h refl)
signed-digits f n (String.◌∷◌ c s) h e = ground arith

int_text-digits :
    (n : ℕ) (s : String) → s ≢ "" → read_digits 0 s ≡ some n → int_text s ≡ some (pos n)
unfolding int_text
int_text-digits n String.[] h e = absurd (h refl)
int_text-digits n (String.◌∷◌ c s) h e =
    let digits = signed-digits pos n (String.◌∷◌ c s) h e in
    unfold read_digits in ground (arith, digits)

-- `int(str(z)) == z` for every integer.
pub int_text-str_int : (z : ℤ) → int_text (str_int z) ≡ some z
unfolding str_int
int_text-str_int (pos n) =
    int_text-digits n (digits_of (suc n) n) (digits_of-ne-empty n n)
      (read_digits-digits_of (suc n) n (omega arith))
int_text-str_int (negsuc n) = rw cons-append (
    unfold int_text negate in
    ground (
      arith,
      nil-append (digits_of (suc (suc n)) (suc n)),
      signed-digits negate (suc n) (digits_of (suc (suc n)) (suc n))
          (digits_of-ne-empty (suc n) (suc n))
          (read_digits-digits_of (suc (suc n)) (suc n) (omega arith)),
    ))
