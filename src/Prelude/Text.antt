-- ===== src/Prelude/Text.antt =====
-- Python's operations on `str` that the program uses, on ASCII letters and white space.
pub mod Strip
use Prim.Native.Nat.{ℕ, zero, suc, ◌+◌, ◌<◌, compare, Ordering}
use Prim.Native.Char.{Char, char, code, IsScalar}
use Prim.Native.String.{String}
use mathlib.Core.Path.{◌≡◌, refl}
use mathlib.Core.Bool.{Bool, true, false, ◌&&◌, ◌||◌}
use mathlib.Core.Logic.{dite}
use mathlib.Core.List.{List, [], ◌∷◌}
use native.Mathlib.Omega.{arith}
use native.Mathlib.Decide.{dec_lt}
use text.Mathlib.Text.{◌==◌ as str_eq}
use hedwig.Prelude.Tests.{leb, nat_beq, if◌then◌else◌}

compare_lt : (n m : ℕ) → n < m → compare n m ≡ Ordering.lt
compare_lt n m h = ground arith

pub IsScalar-small : (n : ℕ) → n < 55296 → IsScalar n
IsScalar-small n h = rw (compare_lt n 55296 h) tt

-- Upper-case ASCII letters move to lower case; other characters stay.
unfoldable pub lower_char : Char → Char
unfolding dec_lt
lower_char (char n p) =
    dite (dec_lt n 65) (λ _. char n p)
      (λ _.
        dite (dec_lt 90 n) (λ _. char n p)
          (λ h. char (n + 32) (IsScalar-small (n + 32) (omega arith))))

-- `s.lower()`
unfoldable pub lower : String → String
unfolding lower_char
lower String.[] = String.[]
lower (String.◌∷◌ c s) = String.◌∷◌ (lower_char c) (lower s)

-- ASCII white space, as `str.strip` and `\s` read it.
unfoldable pub is_space : Char → Bool
is_space c =
    nat_beq (code c) 32
    || (leb 9 (code c) && leb (code c) 13)
    || (leb 28 (code c) && leb (code c) 31)

unfoldable pub lstrip : String → String
unfolding is_space
lstrip String.[] = String.[]
lstrip (String.◌∷◌ c s) = if is_space c then lstrip s else String.◌∷◌ c s

-- A character before a text that ends in no white space.
unfoldable pub rstrip_cons : Char → String → String
unfolding is_space
rstrip_cons c String.[] = if is_space c then String.[] else String.◌∷◌ c String.[]
rstrip_cons c (String.◌∷◌ d t) = String.◌∷◌ c (String.◌∷◌ d t)

unfoldable pub rstrip : String → String
unfolding rstrip_cons
rstrip String.[] = String.[]
rstrip (String.◌∷◌ c s) = rstrip_cons c (rstrip s)

-- `s.strip()`
unfoldable pub strip : String → String
unfolding lstrip rstrip
strip s = rstrip (lstrip s)

-- `t.startswith(s)`
unfoldable pub starts_with : String → String → Bool
starts_with String.[] t = true
starts_with (String.◌∷◌ c s) String.[] = false
starts_with (String.◌∷◌ c s) (String.◌∷◌ d t) = nat_beq (code c) (code d) && starts_with s t

-- `s in t`
unfoldable pub contains : String → String → Bool
unfolding starts_with
contains s String.[] = starts_with s String.[]
contains s (String.◌∷◌ d t) = starts_with s (String.◌∷◌ d t) || contains s t

-- `bool(s)`
unfoldable pub truthy : String → Bool
truthy String.[] = false
truthy (String.◌∷◌ c s) = true

-- `s.partition("@")`, without the separator: all of `s` and the empty text if there is none.
unfoldable pub partition : ℕ → String → String × String
partition sep String.[] = (String.[], String.[])
partition sep (String.◌∷◌ c s) =
    let rest = partition sep s in
    if nat_beq (code c) sep then (String.[], s) else (String.◌∷◌ c rest.0, rest.1)

-- `s[:n]`, by characters.
unfoldable pub prefix : ℕ → String → String
prefix zero s = String.[]
prefix (suc n) String.[] = String.[]
prefix (suc n) (String.◌∷◌ c s) = String.◌∷◌ c (prefix n s)

-- `s.replace("\n", " ")`
unfoldable pub newlines_to_spaces : String → String
newlines_to_spaces String.[] = String.[]
newlines_to_spaces (String.◌∷◌ c s) =
    String.◌∷◌ (if nat_beq (code c) 10 then char 32 tt else c) (newlines_to_spaces s)

-- `len(s)`
unfoldable pub text_length : String → ℕ
text_length String.[] = 0
text_length (String.◌∷◌ c s) = suc (text_length s)

push_word : String → List String → List String
push_word w ws = if truthy w then w ∷ ws else ws

-- The word that `s` begins with, empty before white space, and the words after it.
split_from : String → String × List String
unfolding push_word truthy is_space
split_from String.[] = (String.[], [])
split_from (String.◌∷◌ c s) =
    let rest = split_from s in
    if is_space c then (String.[], push_word rest.0 rest.1) else (String.◌∷◌ c rest.0, rest.1)

-- `s.split()`: the words between white space.
unfoldable pub split : String → List String
unfolding split_from
split s = let words = split_from s in push_word words.0 words.1

lower_test : str_eq (lower "Ab Z") "ab z" ≡ true
unfolding lower dec_lt
lower_test = refl

strip_test : str_eq (strip "  a b \n") "a b" ≡ true
unfolding strip
strip_test = refl
