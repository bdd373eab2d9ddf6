-- ===== src/Prelude/Base64.antt =====
-- `base64.b64decode` of the standard library, as far as the program reads it: whether the text
-- decodes, and to how many bytes. The scan is that of `binascii.a2b_base64`.
use Prim.Native.Char.{Char, code}
use hedwig.Prelude.{
  Bool, Option, String, false, if◌then◌else◌, leb, ltb, nat_beq, none, not, refl, some, suc, true,
  zero, ℕ, ◌%◌, ◌&&◌, ◌+◌, ◌||◌, ◌≡◌,
}

is_alphabet : Char → Bool
is_alphabet c =
    (leb b'A' (code c) && leb (code c) b'Z')
    || (leb b'a' (code c) && leb (code c) b'z')
    || (leb b'0' (code c) && leb (code c) b'9')
    || nat_beq (code c) b'+'
    || nat_beq (code c) b'/'

-- A sextet after position `quad` of its group completes a byte unless it opens the group.
bytes_at : ℕ → ℕ
bytes_at zero = 0
bytes_at (suc n) = 1

is_empty : String → Bool
is_empty String.[] = true
is_empty (String.◌∷◌ c s) = false

-- `quad` is the position in the group of four, `pads` the `=` signs since the last sextet, `size`
-- the bytes so far. In strict mode foreign characters and misplaced padding are errors.
scan : Bool → ℕ → ℕ → ℕ → String → Option ℕ
unfolding is_alphabet bytes_at is_empty
scan strict quad pads size String.[] = if nat_beq quad 0 then some size else none
scan strict quad pads size (String.◌∷◌ c s) =
    let skip : Option ℕ = scan strict quad pads size s in
    let pad : Option ℕ = scan strict quad (if leb 2 quad then pads + 1 else pads) size s in
    let take_one : Option ℕ = scan strict ((quad + 1) % 4) 0 (size + bytes_at quad) s in
    if nat_beq (code c) b'='
    then (if strict && nat_beq quad 0
        then none
        else if leb 2 quad && leb 4 (quad + pads + 1)
        then (if strict && not (is_empty s) then none else some size)
        else pad)
    else if is_alphabet c
    then (if strict && ltb 0 pads then none else take_one)
    else if strict
    then none
    else skip

is_ascii : String → Bool
is_ascii String.[] = true
is_ascii (String.◌∷◌ c s) = ltb (code c) 128 && is_ascii s

-- `len(base64.b64decode(s, validate=strict))`, `none` where it raises.
unfoldable pub decoded_size : Bool → String → Option ℕ
unfolding scan is_ascii
decoded_size strict s = if is_ascii s then scan strict 0 0 0 s else none

decoded_size_test : decoded_size true "aGVsbG8=" ≡ some 5
unfolding decoded_size
decoded_size_test = refl

decoded_size_lenient_test : decoded_size false "aGVs\nbG8=" ≡ some 5
unfolding decoded_size
decoded_size_lenient_test = refl

decoded_size_strict_test : decoded_size true "aGVs\nbG8=" ≡ none
unfolding decoded_size
decoded_size_strict_test = refl
