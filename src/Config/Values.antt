-- ===== src/Config/Values.antt =====
-- The values of the configuration: trimming, and the reading of numbers and truth values. The
-- characters are those of the "C" locale, and `long` has 64 bits.
use v4l2_capture.Prelude.{
  ℕ, zero, suc, ◌+◌, ◌-◌, ◌*◌, ◌^◌, ◌≤◌, ◌<◌, ◌≡◌, Bool, true, false, ◌&&◌, ◌||◌, ltb, leb, ◌==◌,
  ◌!=◌,
}
use v4l2_capture.Prelude.{if◌then◌else◌, List, [], ◌∷◌, Option, none, some, length, bytes_eq, arith}
use v4l2_capture.Prelude.Int.{ℤ, pos, negsuc, to_nat}
use v4l2_capture.Config.{Text, codes, invalid_integer, invalid_bool, Result, ok, err}

-- `std::isspace`
abbrev pub is_space : ℕ → Bool
is_space c = c == 32 || (leb 9 c && leb c 13)

-- The first loop of `trim`.
unfoldable pub trim_front : Text → Text
trim_front [] = []
trim_front (c ∷ text) = if is_space c then trim_front text else c ∷ text

-- The second loop: a blank goes when nothing but blanks follows it.
unfoldable pub trim_back : Text → Text
trim_back [] = []
trim_back (c ∷ text) = elim (trim_back text) [
  | [] ↦ if is_space c then [] else c ∷ []
  | d ∷ rest ↦ c ∷ d ∷ rest
]

unfoldable pub trim : Text → Text
unfolding trim_front trim_back
trim input = trim_back (trim_front input)

-- `std::tolower` on every character.
unfoldable pub to_lower : Text → Text
to_lower [] = []
to_lower (c ∷ text) = (if leb 65 c && leb c 90 then c + 32 else c) ∷ to_lower text

-- The digits at the front, the value that they have after the value `n`, and what follows them.
unfoldable pub digits : ℕ → Text → ℕ × Text
digits n [] = (n, [])
digits n (c ∷ text) =
    let more = digits (10 * n + (c - 48)) text in
    if leb 48 c && leb c 57 then more else (n, c ∷ text)

-- The sign, if there is one: whether it is a minus, and what follows.
abbrev sign : Text → Bool × Text
sign [] = (false, [])
sign (c ∷ text) =
    if c == 45 then (true, text) else (if c == 43 then (false, text) else (false, c ∷ text))

-- `std::stol` in base 10: the value and the number of characters read, or an exception.
unfoldable pub stol : Text → Option (ℤ × ℕ)
unfolding trim_front digits
stol value =
    let (minus, number) = sign (trim_front value) in
    let (n, rest) = digits 0 number in
    let read = length value - length rest in
    if length rest == length number
    then none
    else (if minus
        then (if ltb (2 ^ 63) n then none else some (negate n, read))
        else (if leb (2 ^ 63) n then none else some (pos n, read)))
  where
    negate : ℕ → ℤ
    negate zero = pos 0
    negate (suc n) = negsuc n

-- The number when it takes all of the text and is in the range.
abbrev pub in_range : Text → ℕ → ℕ → Option (ℤ × ℕ) → Result ℤ
in_range value lowest max_value none = err (invalid_integer value)
in_range value lowest max_value (some (negsuc n, read)) = err (invalid_integer value)
in_range value lowest max_value (some (pos n, read)) =
    if read != length value || ltb n lowest || ltb max_value n
    then err (invalid_integer value)
    else ok (pos n)

unfoldable pub parse_positive_int : Text → ℕ → Result ℤ
unfolding stol
parse_positive_int value max_value = in_range value 1 max_value (stol value)

unfoldable pub parse_non_negative_int : Text → ℕ → Result ℤ
unfolding stol
parse_non_negative_int value max_value = in_range value 0 max_value (stol value)

abbrev pub default_max_value : ℕ
default_max_value = 1000000

abbrev pub cast_u32 : Result ℤ → Result ℕ
cast_u32 (ok n) = ok (to_nat n)
cast_u32 (err e) = err e

unfoldable pub parse_u32_value : Text → Result ℕ
unfolding parse_positive_int
parse_u32_value value = cast_u32 (parse_positive_int value default_max_value)

abbrev pub one_of : Text → List Text → Bool
one_of text [] = false
one_of text (t ∷ rest) = bytes_eq text t || one_of text rest

unfoldable pub parse_bool : Text → Result Bool
unfolding trim to_lower
parse_bool value =
    let lowered = to_lower (trim value) in
    if one_of lowered (codes "1" ∷ codes "true" ∷ codes "yes" ∷ codes "on" ∷ [])
    then ok true
    else (if one_of lowered (codes "0" ∷ codes "false" ∷ codes "no" ∷ codes "off" ∷ [])
        then ok false
        else err (invalid_bool value))

in_range-bounds :
    (value : Text) (lowest max_value : ℕ) (read : Option (ℤ × ℕ)) (v : ℤ)
    → in_range value lowest max_value read ≡ ok v
    → (n : ℕ) × (v ≡ pos n) × (lowest ≤ n) × (n ≤ max_value)
in_range-bounds value lowest max_value none v e = cc
in_range-bounds value lowest max_value (some (negsuc n, read)) v e = cc
in_range-bounds value lowest max_value (some (pos n, read)) v e =
    (n, ground arith, ground arith, ground arith)

-- A number that is accepted is in the range that is asked for.
pub parse_positive_int-bounds :
    (value : Text) (max_value : ℕ) (v : ℤ)
    → parse_positive_int value max_value ≡ ok v
    → (n : ℕ) × (v ≡ pos n) × (0 < n) × (n ≤ max_value)
unfolding parse_positive_int
parse_positive_int-bounds value max_value v e = in_range-bounds value 1 max_value (stol value) v e

pub parse_non_negative_int-bounds :
    (value : Text) (max_value : ℕ) (v : ℤ)
    → parse_non_negative_int value max_value ≡ ok v
    → (n : ℕ) × (v ≡ pos n) × (0 ≤ n) × (n ≤ max_value)
unfolding parse_non_negative_int
parse_non_negative_int-bounds value max_value v e =
    in_range-bounds value 0 max_value (stol value) v e
