-- ===== src/Ingest/Subjects.antt =====
-- `normalize_subject` of providers/ingest.py: the loop runs on fuel, one more than the length.
pub mod Loop
use hedwig.Prelude.Text.{lower, lstrip, strip, text_length}
use Prim.Native.Char.{code}
use hedwig.Prelude.{
  Option, String, [], if◌then◌else◌, nat_beq, none, refl, some, suc, zero, ℕ, ◌+◌, ◌∷◌, ◌≡◌,
}
use hedwig.Prelude.Text.{lower_char}

-- What follows `word` at the start of `s`, whatever the case.
unfoldable pub after_word : String → String → Option String
after_word String.[] s = some s
after_word (String.◌∷◌ w ws) String.[] = none
after_word (String.◌∷◌ w ws) (String.◌∷◌ c s) =
    if nat_beq (code w) (code (lower_char c)) then after_word ws s else none

-- What follows a colon and the white space behind it.
unfoldable pub after_colon : String → Option String
unfolding lstrip
after_colon String.[] = none
after_colon (String.◌∷◌ c s) = if nat_beq (code c) b':' then some (lstrip s) else none

-- `word\s*:\s*`
unfoldable pub after_prefix : String → String → Option String
unfolding after_word after_colon lstrip
after_prefix word s = elim (after_word word s) [
  | none ↦ none
  | some rest ↦ after_colon (lstrip rest)
]

abbrev first_some : Option String → Option String → Option String
first_some (some s) o = some s
first_some none o = o

-- REPLY_PREFIX_PATTERN: what follows its match at the start of `s`.
unfoldable pub after_reply_prefix : String → Option String
unfolding after_prefix
after_reply_prefix s =
    first_some (after_prefix "re" s) (first_some (after_prefix "fwd" s) (after_prefix "fw" s))

-- The loop `while REPLY_PREFIX_PATTERN.match(…)`, for at most `fuel` rounds.
unfoldable pub strip_prefixes : ℕ → String → String
strip_prefixes zero s = s
strip_prefixes (suc fuel) s = elim (after_reply_prefix s) [
  | none ↦ s
  | some rest ↦ strip_prefixes fuel (strip rest)
]

unfoldable pub normalize_subject : String → String
unfolding strip_prefixes after_reply_prefix strip text_length
normalize_subject subject = strip_prefixes (text_length (strip subject) + 1) (strip subject)

normalize_subject_test : normalize_subject " Re: FWD : re:hello re: x " ≡ "hello re: x"
unfolding normalize_subject lower_char
normalize_subject_test = refl
