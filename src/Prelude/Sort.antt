-- ===== src/Prelude/Sort.antt =====
-- `sorted`, by insertion: a stable sort, and the sorted list of a set of texts.
use Prim.Native.Nat.{Ordering}
use Prim.Native.String.{compare as compare_text}
use hedwig.Prelude.{
  Bool, List, String, [], append, false, if◌then◌else◌, nat_eq, option_eq, refl, string_eq, true,
  ◌==◌, ◌∷◌, ◌≡◌,
}

-- Whether `a` may stand before `b`.
module _ {ℓ} {A : Type ℓ} (before : A → A → Bool) where
  abbrev pub IsSorted : List A → Type 0
  IsSorted [] = Unit
  IsSorted (x ∷ []) = Unit
  IsSorted (x ∷ y ∷ ys) = (before x y ≡ true) × IsSorted (y ∷ ys)

  -- Before the first element that comes after `x`, or that `x` may stand before.
  unfoldable pub insert : A → List A → List A
  insert x [] = x ∷ []
  insert x (y ∷ ys) = if before x y then x ∷ y ∷ ys else y ∷ insert x ys

  unfoldable pub sort : List A → List A
  unfolding insert
  sort [] = []
  sort (x ∷ xs) = insert x (sort xs)

abbrev pub text_le : String → String → Bool
text_le a b = elim (compare_text a b) [ Ordering.gt ↦ false | _ ↦ true ]

-- A text joins a sorted list once.
insert_text : String → List String → List String
insert_text x [] = x ∷ []
insert_text x (y ∷ ys) =
    if x == y then y ∷ ys else if text_le x y then x ∷ y ∷ ys else y ∷ insert_text x ys

-- `sorted(set(xs))`
unfoldable pub sorted_set : List String → List String
unfolding insert_text
sorted_set [] = []
sorted_set (x ∷ xs) = insert_text x (sorted_set xs)

-- `sep.join(xs)`
unfoldable pub join : String → List String → String
join sep [] = ""
join sep (x ∷ []) = x
join sep (x ∷ y ∷ ys) = append x (append sep (join sep (y ∷ ys)))

sorted_set_test : join ", " (sorted_set ("b" ∷ "a" ∷ "b" ∷ [])) ≡ "a, b"
unfolding sorted_set join
sorted_set_test = refl
