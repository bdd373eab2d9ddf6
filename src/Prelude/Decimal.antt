-- ===== src/Prelude/Decimal.antt =====
-- `str(n)` and `int(s)` of the standard library, on numbers that are not negative.
use Prim.Native.Char.{Char, char, code}
use hedwig.Prelude.Text.{IsScalar-small, strip}
use hedwig.Prelude.{
  Bool, Option, String, arith, false, if◌then◌else◌, leb, ltb, nat_beq, none, not, refl, some, suc,
  true, zero, ℕ, ◌%◌, ◌&&◌, ◌*◌, ◌+◌, ◌-◌, ◌/◌, ◌≡◌,
}

abbrev digit : ℕ → String → String
digit d s = String.◌∷◌ (char (48 + d % 10) (IsScalar-small (48 + d % 10) (omega arith))) s

-- The digits of `n` before `s`; `n` is fuel enough for `n`.
print_from : ℕ → ℕ → String → String
print_from zero n s = digit n s
print_from (suc f) n s =
    let rest : String = print_from f (n / 10) (digit n s) in if ltb n 10 then digit n s else rest

-- `str(n)`
unfoldable pub print : ℕ → String
unfolding print_from
print n = print_from n n String.[]

is_digit : Char → Bool
is_digit c = leb 48 (code c) && leb (code c) 57

-- Digits, with single underscores between them; `open` tells that a digit must come next.
parse_digits : Bool → ℕ → String → Option ℕ
unfolding is_digit
parse_digits wants n String.[] = if wants then none else some n
parse_digits wants n (String.◌∷◌ c s) =
    let next : Option ℕ = parse_digits false (n * 10 + (code c - 48)) s in
    let gap : Option ℕ = parse_digits true n s in
    if is_digit c then next else if nat_beq (code c) b'_' && not wants then gap else none

-- The number after an optional sign; a negative number reads as 0.
parse_sign : String → Option ℕ
unfolding parse_digits
parse_sign String.[] = none
parse_sign (String.◌∷◌ c s) =
    if nat_beq (code c) b'-'
    then elim (parse_digits true 0 s) [ none ↦ none | some n ↦ some 0 ]
    else if nat_beq (code c) b'+'
    then parse_digits true 0 s
    else parse_digits true 0 (String.◌∷◌ c s)

-- `max(0, int(s))`, `none` where `int` raises.
unfoldable pub parse : String → Option ℕ
unfolding parse_sign strip
parse s = parse_sign (strip s)

parse-print_test : parse (print 1205) ≡ some 1205
unfolding parse print
parse-print_test = refl

parse_negative_test : parse " -7 " ≡ some 0
unfolding parse
parse_negative_test = refl
