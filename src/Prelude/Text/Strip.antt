-- ===== src/Prelude/Text/Strip.antt =====
-- Laws of `str.strip`: it lengthens nothing, and twice is once.
use Prim.Native.Char.{Char}
use hedwig.Prelude.Text.{is_space, lstrip, rstrip, rstrip_cons, strip, text_length}
use hedwig.Prelude.{Bool-cases, String, ap, arith, false, inl, inr, refl, suc, ◌∙◌, ◌≡◌, ◌≤◌}

-- Nothing, or a text whose first character is no white space.
pub data StartsDark (s : String) : Type 0 where
  nothing : s ≡ "" → StartsDark s
  dark : (c : Char) (t : String) → is_space c ≡ false → s ≡ String.◌∷◌ c t → StartsDark s

pub length-lstrip-le : (s : String) → text_length (lstrip s) ≤ text_length s
unfolding lstrip text_length
length-lstrip-le String.[] = omega arith
length-lstrip-le (String.◌∷◌ c s) = ground (arith, length-lstrip-le s)

length-rstrip_cons-le :
    (c : Char) (t : String) → text_length (rstrip_cons c t) ≤ suc (text_length t)
unfolding rstrip_cons text_length
length-rstrip_cons-le c String.[] = elim (Bool-cases (is_space c)) [
  | inl e ↦ rw e (omega arith)
  | inr e ↦ rw e (omega arith)
]
length-rstrip_cons-le c (String.◌∷◌ d t) = omega arith

rstrip-rstrip_cons :
    (c : Char) (t : String) → rstrip t ≡ t → rstrip (rstrip_cons c t) ≡ rstrip_cons c t
unfolding rstrip
rstrip-rstrip_cons c String.[] h = elim (Bool-cases (is_space c)) [
  | inl e ↦ rw e refl
  | inr e ↦ rw e (rw e refl)
]
rstrip-rstrip_cons c (String.◌∷◌ d t) h = ap (rstrip_cons c) h

StartsDark-rstrip_cons : (c : Char) (t : String) → is_space c ≡ false → StartsDark (rstrip_cons c t)
unfolding rstrip_cons
StartsDark-rstrip_cons c String.[] k = rw k (dark c "" k refl)
StartsDark-rstrip_cons c (String.◌∷◌ d t) k = dark c (String.◌∷◌ d t) k refl

pub length-rstrip-le : (s : String) → text_length (rstrip s) ≤ text_length s
unfolding rstrip text_length
length-rstrip-le String.[] = omega arith
length-rstrip-le (String.◌∷◌ c s) =
    omega (arith, length-rstrip_cons-le c (rstrip s), length-rstrip-le s)

pub length-strip-le : (s : String) → text_length (strip s) ≤ text_length s
unfolding strip
length-strip-le s = omega (arith, length-rstrip-le (lstrip s), length-lstrip-le s)

StartsDark-lstrip : (s : String) → StartsDark (lstrip s)
unfolding lstrip
StartsDark-lstrip String.[] = nothing refl
StartsDark-lstrip (String.◌∷◌ c s) = elim (Bool-cases (is_space c)) [
  | inl e ↦ rw e (StartsDark-lstrip s)
  | inr e ↦ rw e (dark c s e refl)
]

lstrip-dark : (s : String) → StartsDark s → lstrip s ≡ s
unfolding lstrip
lstrip-dark s (nothing e) = rw e refl
lstrip-dark s (dark c t k e) = rw e (rw k refl)

rstrip-rstrip : (s : String) → rstrip (rstrip s) ≡ rstrip s
unfolding rstrip
rstrip-rstrip String.[] = refl
rstrip-rstrip (String.◌∷◌ c s) = rstrip-rstrip_cons c (rstrip s) (rstrip-rstrip s)

StartsDark-rstrip : (s : String) → StartsDark s → StartsDark (rstrip s)
unfolding rstrip
StartsDark-rstrip s (nothing e) = rw e (nothing refl)
StartsDark-rstrip s (dark c t k e) = rw e (StartsDark-rstrip_cons c (rstrip t) k)

pub strip-strip : (s : String) → strip (strip s) ≡ strip s
unfolding strip
strip-strip s =
    ap rstrip (lstrip-dark _ (StartsDark-rstrip _ (StartsDark-lstrip s))) ∙ rstrip-rstrip (lstrip s)
