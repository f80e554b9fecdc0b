-- ===== src/Prelude/Numbers.antt =====
-- `strtoull` and `strtol` of the C library at base 10, on a 64-bit machine.
use Prim.Native.Nat.{ℕ, zero, suc, ◌+◌, ◌-◌, ◌*◌, ◌/◌, ◌%◌, ◌^◌}
use mathlib.Core.Path.{◌≡◌, refl}
use mathlib.Core.Bool.{Bool, true, false}
use mathlib.Core.Option.{Option, none, some}
use mathlib.Core.List.{[], ◌∷◌}
use native.Mathlib.Omega.{arith}
use rpsiod.Prelude.Tests.{ltb, ◌==◌, if◌then◌else◌}
use rpsiod.Prelude.Text.{Bytes, isspace, isdigit}
use rpsiod.Prelude.Lists.{All}
use rpsiod.Prelude.Scan.{take_while, drop_while}

abbrev pub u64 : ℕ
u64 = 2 ^ 64

-- `negsuc n` is -(n + 1).
pub data ℤ : Type 0 where
  pos : ℕ → ℤ
  negsuc : ℕ → ℤ

-- A number that was read: its value, the text behind it (`*end`), and whether `errno` is `ERANGE`.
pub record Number (A : Type 0) : Type 0 where
  pub value : A
  pub rest : Bytes
  pub range_error : Bool

-- the value of digits, with no bound
abbrev pub digits_value : ℕ → Bytes → ℕ
digits_value n [] = n
digits_value n (c ∷ s) = digits_value (n * 10 + (c - b'0')) s

-- an optional sign (`true` is minus), and the text behind it
unfoldable pub sign : Bytes → Bool × Bytes
sign [] = (false, [])
sign (c ∷ s) = if c == b'-' then (true, s) else if c == b'+' then (false, s) else (false, c ∷ s)

unfoldable pub unsigned : Bool → ℕ → Bytes → Number ℕ
unsigned minus n rest =
    if ltb n u64
    then record { value = if minus then (u64 - n) % u64 else n; rest = rest; range_error = false }
    else record { value = u64 - 1; rest = rest; range_error = true }

integer : Bool → ℕ → ℤ
integer false n = pos n
integer true zero = pos zero
integer true (suc n) = negsuc n

unfoldable pub signed : Bool → ℕ → Bytes → Number ℤ
unfolding integer
signed minus n rest =
    if ltb n (if minus then 2 ^ 63 + 1 else 2 ^ 63)
    then record { value = integer minus n; rest = rest; range_error = false }
    else record {
      value = if minus then negsuc (2 ^ 63 - 1) else pos (2 ^ 63 - 1);
      rest = rest;
      range_error = true;
    }

-- `none` is `end == text`: there is no digit.
unfoldable pub number_of {ℓ} :
    {A : Type ℓ} → (Bool → ℕ → Bytes → A) → Bool → Bytes → Bytes → Option A
number_of make minus [] rest = none
number_of make minus (d ∷ ds) rest = some (make minus (digits_value 0 (d ∷ ds)) rest)

unfoldable pub strtoull : Bytes → Option (Number ℕ)
unfolding sign unsigned number_of
strtoull text =
    let (minus, t) = sign (drop_while isspace text) in
    number_of unsigned minus (take_while isdigit t) (drop_while isdigit t)

unfoldable pub strtol : Bytes → Option (Number ℤ)
unfolding sign signed number_of
strtol text =
    let (minus, t) = sign (drop_while isspace text) in
    number_of signed minus (take_while isdigit t) (drop_while isdigit t)

decimal_loop : ℕ → ℕ → Bytes → Bytes
decimal_loop zero n behind = behind
decimal_loop (suc fuel) n behind =
    let digits = (b'0' + n % 10) ∷ behind in
    let rest = decimal_loop fuel (n / 10) digits in if ltb n 10 then digits else rest

-- `%u` of printf.
unfoldable pub decimal : ℕ → Bytes
unfolding decimal_loop
decimal n = decimal_loop (n + 1) n []

unfoldable pub hex_char : ℕ → ℕ
hex_char d = if ltb d 10 then b'0' + d else b'a' + (d - 10)

unfoldable pub hex_loop : ℕ → ℕ → Bytes → Bytes
unfolding hex_char
hex_loop zero n behind = behind
hex_loop (suc fuel) n behind =
    let digits = hex_char (n % 16) ∷ behind in
    let rest = hex_loop fuel (n / 16) digits in if ltb n 16 then digits else rest

-- `%llx` of printf.
unfoldable pub hexadecimal : ℕ → Bytes
unfolding hex_loop
hexadecimal n = hex_loop (n + 1) n []

-- `%d` of printf.
unfoldable pub decimal_int : ℤ → Bytes
decimal_int (pos n) = decimal n
decimal_int (negsuc n) = b'-' ∷ decimal (n + 1)

abbrev pub AllDigits : Bytes → Type 0
AllDigits = All (λ c. isdigit c ≡ true)

take_while-digits : (ds : Bytes) → AllDigits ds → take_while isdigit ds ≡ ds
take_while-digits [] h = refl
take_while-digits (c ∷ s) (hc, h) = rw (hc, take_while-digits s h)

drop_while-digits : (ds : Bytes) → AllDigits ds → drop_while isdigit ds ≡ []
drop_while-digits [] h = refl
drop_while-digits (c ∷ s) (hc, h) = rw (hc, drop_while-digits s h)

sign_digits :
    (c : ℕ) (s : Bytes) → isdigit c ≡ true → sign (drop_while isspace (c ∷ s)) ≡ (false, c ∷ s)
unfolding sign
sign_digits c s h = ground arith

-- A text of digits alone is read whole.
pub strtoull_digits :
    (c : ℕ) (s : Bytes)
    → AllDigits (c ∷ s)
    → strtoull (c ∷ s) ≡ some (unsigned false (digits_value 0 (c ∷ s)) [])
unfolding strtoull
strtoull_digits c s h =
    rw (sign_digits c s h.0, take_while-digits (c ∷ s) h, drop_while-digits (c ∷ s) h)
