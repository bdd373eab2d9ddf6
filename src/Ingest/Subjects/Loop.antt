-- ===== src/Ingest/Subjects/Loop.antt =====
-- The loop of `normalize_subject` ends, and its result carries no reply prefix.
use hedwig.Prelude.Text.{lstrip, strip, text_length}
use hedwig.Prelude.Text.Strip.{length-lstrip-le, length-strip-le, strip-strip}
use native.Mathlib.Numerals.{add-one}
use hedwig.Prelude.{
  Option-cases, String, arith, inl, inr, none, refl, some, suc, zero, ℕ, ◌+◌, ◌<◌, ◌≡◌, ◌≤◌,
}
use hedwig.Ingest.Subjects.{
  after_colon, after_prefix, after_reply_prefix, after_word, normalize_subject, strip_prefixes,
}

length-after_word : (w s r : String) → after_word w s ≡ some r → text_length r ≤ text_length s
unfolding after_word text_length
length-after_word String.[] s r h = ground arith
length-after_word (String.◌∷◌ w ws) String.[] r h = cc
length-after_word (String.◌∷◌ w ws) (String.◌∷◌ c s) r h = ground (arith, length-after_word ws s r)

length-after_colon : (s r : String) → after_colon s ≡ some r → text_length r < text_length s
unfolding after_colon text_length
length-after_colon String.[] r h = cc
length-after_colon (String.◌∷◌ c s) r h = ground (arith, length-lstrip-le s)

length-after_prefix : (w s r : String) → after_prefix w s ≡ some r → text_length r < text_length s
unfolding after_prefix
length-after_prefix w s r h = elim (Option-cases (after_word w s)) [
  | inl e ↦ ground arith
  | inr (rest, e) ↦ omega (
    arith,
    length-after_word w s rest e,
    length-lstrip-le rest,
    length-after_colon (lstrip rest) r (ground arith),
  )
]

-- A match of the prefix takes something off.
length-after_reply_prefix :
    (s r : String) → after_reply_prefix s ≡ some r → text_length r < text_length s
unfolding after_reply_prefix
length-after_reply_prefix s r h = ground (
  arith,
  length-after_prefix "re" s r,
  length-after_prefix "fwd" s r,
  length-after_prefix "fw" s r,
)

-- The rounds of the loop in order, to where no prefix is left.
pub data Strips : String → String → Type 0 where
  stop : (s : String) → after_reply_prefix s ≡ none → Strips s s
  round :
      (s rest r : String) → after_reply_prefix s ≡ some rest → Strips (strip rest) r → Strips s r

-- With fuel above the length the loop ends by its test, where its rounds come to.
strip_prefixes_total :
    (fuel : ℕ) (s : String)
    → text_length s < fuel
    → strip s ≡ s
    → (r : String) × (strip_prefixes fuel s ≡ r)
      × Strips s r
      × (after_reply_prefix r ≡ none)
      × (strip r ≡ r)
unfolding strip_prefixes
strip_prefixes_total zero s h k = absurd (omega arith)
strip_prefixes_total (suc fuel) s h k = elim (Option-cases (after_reply_prefix s)) [
  | inl e ↦ (s, rw (e, strip_prefixes) refl, Strips.stop s e, e, k)
  | inr (rest, e) ↦
      let (r, done, rounds, bare, stripped) =
        strip_prefixes_total fuel (strip rest)
          (omega (arith, length-strip-le rest, length-after_reply_prefix s rest e))
          (strip-strip rest) in
      (r, rw (e, strip_prefixes) done, Strips.round s rest r e rounds, bare, stripped)
]

-- The loop of `normalize_subject` ends by its test: the result is what is left of the stripped
-- subject when reply prefixes are taken off, with the white space round what follows, as long as
-- there is one. It has no reply prefix and no white space round it, and a second normalization
-- leaves it alone.
pub normalize_subject_lem :
    (s : String)
    → Strips (strip s) (normalize_subject s)
      × (after_reply_prefix (normalize_subject s) ≡ none)
      × (strip (normalize_subject s) ≡ normalize_subject s)
      × (normalize_subject (normalize_subject s) ≡ normalize_subject s)
unfolding normalize_subject
normalize_subject_lem s =
    let (r, e, rounds, p, k) =
      strip_prefixes_total (text_length (strip s) + 1) (strip s) (omega arith) (strip-strip s) in
    rw e (rounds, p, k, rw k (rw (add-one (text_length r)) (rw (p, strip_prefixes) refl)))
