-- ===== src/Text/Decimal.antt =====
-- strconv.FormatInt and strconv.ParseInt of decimal 64-bit integers.
use ngd_ngg_scheduling.Base.{
  ℕ, zero, suc, ◌+◌, ◌-◌, ◌*◌, ◌/◌, ◌%◌, ◌<◌, ◌≤◌, ◌≡◌, refl, ap, ◌∙◌, inl, inr, Bool, true, false,
  not, ◌&&◌, [], ◌∷◌, Option, none, some, ltb, leb, nat_eq, if◌then◌else◌, arith, Bool-cases, ℤ,
  pos, negsuc,
}
use ngd_ngg_scheduling.Text.{Text, is_empty}
use ngd_ngg_scheduling.Worker.{digits, format_uint}

-- 2^63 and the largest uint64
abbrev pub cutoff : ℕ
cutoff = 9223372036854775808

abbrev max_uint64 : ℕ
max_uint64 = 18446744073709551615

-- strconv.FormatInt
unfoldable pub format_int : ℤ → Text
format_int (pos n) = format_uint n
format_int (negsuc n) = b'-' ∷ format_uint (suc n)

abbrev is_digit : ℕ → Bool
is_digit c = leb b'0' c && leb c b'9'

-- The loop of ParseUint from a value on: `none` for a syntax error, and a value beyond the largest
-- uint64 where that is exceeded, whatever follows.
unfoldable pub digits_value : ℕ → Text → Option ℕ
digits_value acc [] = some acc
digits_value acc (c ∷ s) =
    let next = acc * 10 + (c - b'0') in
    let rest = digits_value next s in
    if not (is_digit c) then none else if ltb max_uint64 next then some next else rest

-- ParseUint, which refuses the empty text.
abbrev parse_uint : Text → Option ℕ
parse_uint s = if is_empty s then none else digits_value 0 s

-- A value with its sign in the range of an int64, and whether it was in the range.
unfoldable pub signed : Bool → ℕ → ℤ × Bool
signed false n = if leb cutoff n then (pos (cutoff - 1), false) else (pos n, true)
signed true zero = (pos 0, true)
signed true (suc n) = if ltb cutoff (suc n) then (negsuc (cutoff - 1), false) else (negsuc n, true)

abbrev signed_or_zero : Bool → Option ℕ → ℤ × Bool
signed_or_zero negative none = (pos 0, false)
signed_or_zero negative (some n) = signed negative n

-- strconv.ParseInt(s, 10, 64): the value and whether there is no error.
unfoldable pub parse_int : Text → ℤ × Bool
parse_int [] = (pos 0, false)
parse_int (c ∷ s) =
    if nat_eq c b'+'
    then signed_or_zero false (parse_uint s)
    else if nat_eq c b'-'
    then signed_or_zero true (parse_uint s)
    else signed_or_zero false (parse_uint (c ∷ s))

abbrev power : ℕ → ℕ
power zero = 1
power (suc fuel) = 10 * power fuel

is_digit-below : (d : ℕ) → d < 10 → is_digit (b'0' + d) ≡ true
is_digit-below d h = ground arith

digits_value-cons :
    (acc d : ℕ) (s : Text)
    → d < 10
    → acc * 10 + d ≤ max_uint64
    → digits_value acc ((b'0' + d) ∷ s) ≡ digits_value (acc * 10 + d) s
unfolding digits_value
digits_value-cons acc d s h k =
    let low : ltb max_uint64 (acc * 10 + d) ≡ false = ground arith in
    let same : (b'0' + d) - b'0' ≡ d = omega arith in rw (same, is_digit-below d h, low) refl

some_fuel : (fuel : ℕ) {n : ℕ} → 1 ≤ n → n < power fuel → 1 ≤ fuel
some_fuel zero h k = absurd (omega arith)
some_fuel (suc fuel) h k = omega arith

digits_lem :
    (fuel n : ℕ) (s : Text)
    → n < power fuel
    → 1 ≤ fuel
    → n ≤ max_uint64
    → digits_value 0 (digits fuel n s) ≡ digits_value n s
unfolding digits
digits_lem zero n s h k l = absurd (omega arith)
digits_lem (suc fuel) n s h k l = elim (Bool-cases (ltb n 10)) [
  | inl e ↦
      let small : n < 10 = ground arith in
      let unit : n % 10 ≡ n = omega arith in
      let start : 0 * 10 + n ≡ n = omega arith in
      rw e
        (rw unit (digits_value-cons 0 n s small (omega arith) ∙ ap (λ m. digits_value m s) start))
  | inr e ↦
      let large : 10 ≤ n = ground arith in
      let low : n % 10 < 10 = omega arith in
      let whole : n / 10 * 10 + n % 10 ≡ n = omega arith in
      let fits : n / 10 < power fuel = omega arith in
      rw e (
        digits_lem fuel (n / 10) ((b'0' + n % 10) ∷ s) fits (some_fuel fuel (omega arith) fits)
          (omega arith)
        ∙ digits_value-cons (n / 10) (n % 10) s low (omega arith)
        ∙ ap (λ m. digits_value m s) whole)
]

-- The text begins with a digit, which is no sign.
unfoldable begins_with_digit : Text → Bool
begins_with_digit [] = false
begins_with_digit (c ∷ s) = is_digit c

digits-begins_with_digit :
    (fuel n : ℕ) (s : Text) → 1 ≤ fuel → n < power fuel → begins_with_digit (digits fuel n s) ≡ true
unfolding digits begins_with_digit
digits-begins_with_digit zero n s k h = absurd (omega arith)
digits-begins_with_digit (suc fuel) n s k h = elim (Bool-cases (ltb n 10)) [
  | inl e ↦ rw e (is_digit-below (n % 10) (omega arith))
  | inr e ↦
      let large : 10 ≤ n = ground arith in
      let fits : n / 10 < power fuel = omega arith in
      rw e (digits-begins_with_digit fuel (n / 10) _ (some_fuel fuel (omega arith) fits) fits)
]

parse_int-digit :
    (s : Text) (n : ℕ)
    → begins_with_digit s ≡ true
    → digits_value 0 s ≡ some n
    → n < cutoff
    → parse_int s ≡ (pos n, true)
unfolding parse_int begins_with_digit signed
parse_int-digit [] n h k l = cc
parse_int-digit (c ∷ s) n h k l =
    let plus : nat_eq c b'+' ≡ false = ground arith in
    let minus : nat_eq c b'-' ≡ false = ground arith in
    let low : leb cutoff n ≡ false = ground arith in rw (plus, minus, k, low) refl

-- The text of an int64 that is not negative is read back as its value.
pub parse_int-format_uint : (n : ℕ) → n < cutoff → parse_int (format_uint n) ≡ (pos n, true)
unfolding format_uint digits_value
parse_int-format_uint n h =
    parse_int-digit (digits 20 n []) n
      (digits-begins_with_digit 20 n [] (omega arith) (omega arith))
      (digits_lem 20 n [] (omega arith) (omega arith) (omega arith)) h
