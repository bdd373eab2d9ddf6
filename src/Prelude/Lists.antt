-- ===== src/Prelude/Lists.antt =====
-- Lists as the rows of a table: the queries and updates that the program makes, and their laws.
use Prim.Native.Nat.{ℕ, zero, suc, ◌+◌}
use mathlib.Core.Path.{◌≡◌, refl, ap}
use mathlib.Core.Bool.{Bool, true, false, ◌&&◌, ◌||◌}
use mathlib.Core.Option.{Option, none, some}
use mathlib.Core.Logic.{inl, inr}
use mathlib.Core.List.{List, [], ◌∷◌, ◌++◌, Mem, Memᴰ}
use native.Mathlib.Omega.{arith}
use hedwig.Prelude.Tests.{if◌then◌else◌, Bool-cases, nat_beq}

abbrev pub All {ℓ κ} : {A : Type ℓ} → (A → Type κ) → List A → Type κ
All P [] = Unit
All P (x ∷ xs) = P x × All P xs

module _ {ℓ} {A : Type ℓ} where
  abbrev pub length : List A → ℕ
  length [] = 0
  length (x ∷ xs) = suc (length xs)

  abbrev pub sum_by : (A → ℕ) → List A → ℕ
  sum_by f [] = 0
  sum_by f (x ∷ xs) = f x + sum_by f xs

  abbrev pub any : (A → Bool) → List A → Bool
  any p [] = false
  any p (x ∷ xs) = p x || any p xs

  abbrev pub all : (A → Bool) → List A → Bool
  all p [] = true
  all p (x ∷ xs) = p x && all p xs

  -- `.filter(p)`
  abbrev pub select : (A → Bool) → List A → List A
  select p [] = []
  select p (x ∷ xs) = if p x then x ∷ select p xs else select p xs

  -- `.filter(p).first()`
  abbrev pub first? : (A → Bool) → List A → Option A
  first? p [] = none
  first? p (x ∷ xs) = if p x then some x else first? p xs

  -- `.filter(p).update(f)`
  abbrev pub update_where : (A → Bool) → (A → A) → List A → List A
  update_where p f [] = []
  update_where p f (x ∷ xs) = (if p x then f x else x) ∷ update_where p f xs

  -- `l[:n]`
  abbrev pub take : ℕ → List A → List A
  take zero xs = []
  take (suc n) [] = []
  take (suc n) (x ∷ xs) = x ∷ take n xs

  pub first?-none : (p : A → Bool) (xs : List A) → any p xs ≡ false → first? p xs ≡ none
  first?-none p [] h = refl
  first?-none p (x ∷ xs) h = ground (arith, first?-none p xs)

  -- What is found passes the test.
  pub first?-passes : (p : A → Bool) (xs : List A) (x : A) → first? p xs ≡ some x → p x ≡ true
  first?-passes p [] x h = cc
  first?-passes p (y ∷ ys) x h = ground (arith, first?-passes p ys x)

  first?-Memᴰ : (p : A → Bool) (xs : List A) (x : A) → first? p xs ≡ some x → Memᴰ x xs
  first?-Memᴰ p [] x h = cc
  first?-Memᴰ p (y ∷ ys) x h = elim (Bool-cases (p y)) [
    | inl e ↦
        let same : Option.some y ≡ some x = ground (arith, e, h) in
        let eq : x ≡ y = cc in Memᴰ.head eq
    | inr e ↦ Memᴰ.tail (first?-Memᴰ p ys x (ground (arith, e, h)))
  ]

  pub Mem-first? : (p : A → Bool) (xs : List A) (x : A) → first? p xs ≡ some x → Mem x xs
  Mem-first? p xs x h = ∣ first?-Memᴰ p xs x h ∣₁

  pub first?-of_any :
      (p : A → Bool) (xs : List A) → any p xs ≡ true → (x : A) × (first? p xs ≡ some x)
  first?-of_any p [] h = cc
  first?-of_any p (x ∷ xs) h = elim (Bool-cases (p x)) [
    | inl e ↦ (x, rw e refl)
    | inr e ↦ rw e (first?-of_any p xs (ground (arith, e)))
  ]

  pub any-of_first? : (p : A → Bool) (xs : List A) (x : A) → first? p xs ≡ some x → any p xs ≡ true
  any-of_first? p [] x h = cc
  any-of_first? p (y ∷ ys) x h = ground (arith, any-of_first? p ys x)

  -- A test that passes less often finds nothing where the other finds nothing.
  pub any-weaken :
      (p q : A → Bool)
      → ((x : A) → p x ≡ true → q x ≡ true)
      → (xs : List A) → any q xs ≡ false
      → any p xs ≡ false
  any-weaken p q h [] e = refl
  any-weaken p q h (x ∷ xs) e = elim (Bool-cases (p x)) [
    | inl k ↦ ground (arith, h x k)
    | inr k ↦ rw k (any-weaken p q h xs (ground arith))
  ]

  pub any-append : (p : A → Bool) (xs ys : List A) → any p (xs ++ ys) ≡ (any p xs || any p ys)
  any-append p [] ys = refl
  any-append p (x ∷ xs) ys = ground (arith, any-append p xs ys)

  -- An update that keeps what a query reads leaves the query's answer.
  pub any-update :
      (q p : A → Bool) (f : A → A)
      → ((x : A) → q (f x) ≡ q x)
      → (xs : List A) → any q (update_where p f xs) ≡ any q xs
  any-update q p f keep [] = refl
  any-update q p f keep (x ∷ xs) = ground (arith, keep x, any-update q p f keep xs)

  -- Rows found by a test that the update keeps are the updated rows.
  pub first?-update :
      (q p : A → Bool) (f : A → A)
      → ((x : A) → q (f x) ≡ q x)
      → (xs : List A)
      → first? q (update_where p f xs)
        ≡ elim (first? q xs) [ none ↦ none | some x ↦ some (if p x then f x else x) ]
  first?-update q p f keep [] = refl
  first?-update q p f keep (x ∷ xs) = ground (arith, keep x, first?-update q p f keep xs)

  -- A row that passes another test too makes that test find some row.
  pub first?-exists :
      (q p : A → Bool) (xs : List A) (x : A)
      → first? q xs ≡ some x
      → p x ≡ true
      → (y : A) × (first? p xs ≡ some y)
  first?-exists q p [] x h k = cc
  first?-exists q p (y ∷ ys) x h k = elim (Bool-cases (p y)) [
    | inl e ↦ (y, rw e refl)
    | inr e ↦ rw e (first?-exists q p ys x (ground arith) k)
  ]

  -- The first row that passes is the one updated.
  pub first?-update_self :
      (p : A → Bool) (f : A → A)
      → ((x : A) → p (f x) ≡ p x)
      → (xs : List A) (x : A) → first? p xs ≡ some x
      → first? p (update_where p f xs) ≡ some (f x)
  first?-update_self p f keep [] x h = cc
  first?-update_self p f keep (y ∷ ys) x h =
      ground (arith, keep y, first?-update_self p f keep ys x)

  pub length-update_where :
      (p : A → Bool) (f : A → A) (xs : List A) → length (update_where p f xs) ≡ length xs
  length-update_where p f [] = refl
  length-update_where p f (x ∷ xs) = ap suc (length-update_where p f xs)

  pub sum_by-append : (f : A → ℕ) (xs ys : List A) → sum_by f (xs ++ ys) ≡ sum_by f xs + sum_by f ys
  sum_by-append f [] ys = omega arith
  sum_by-append f (x ∷ xs) ys = omega (arith, sum_by-append f xs ys)

  -- No two rows have the same key.
  abbrev pub Distinct : (A → ℕ) → List A → Type 0
  Distinct key [] = Unit
  Distinct key (x ∷ xs) = (any (λ y. nat_beq (key y) (key x)) xs ≡ false) × Distinct key xs

  pub any-first?-false :
      (p q : A → Bool) (xs : List A) (x : A) → first? q xs ≡ some x → any p xs ≡ false → p x ≡ false
  any-first?-false p q [] x h k = cc
  any-first?-false p q (y ∷ ys) x h k = ground (arith, any-first?-false p q ys x)

  -- With distinct keys a row found by any test is the row found by its key.
  pub first?-key :
      (key : A → ℕ) (q : A → Bool) (xs : List A) (x : A)
      → Distinct key xs
      → first? q xs ≡ some x
      → first? (λ y. nat_beq (key y) (key x)) xs ≡ some x
  first?-key key q [] x d h = cc
  first?-key key q (y ∷ ys) x d h = elim (Bool-cases (q y)) [
    | inl e ↦ ground arith
    | inr e ↦
        ground
          (arith, any-first?-false (λ z. nat_beq (key z) (key y)) q ys x, first?-key key q ys x d.1)
  ]

  pub any-select-false :
      (p q : A → Bool) (xs : List A) → any p xs ≡ false → any p (select q xs) ≡ false
  any-select-false p q [] h = refl
  any-select-false p q (x ∷ xs) h = ground (arith, any-select-false p q xs)

  pub Distinct-select :
      (key : A → ℕ) (q : A → Bool) (xs : List A) → Distinct key xs → Distinct key (select q xs)
  Distinct-select key q [] d = tt
  Distinct-select key q (x ∷ xs) d = elim (Bool-cases (q x)) [
    | inl e ↦
        rw e
          (any-select-false (λ y. nat_beq (key y) (key x)) q xs d.0, Distinct-select key q xs d.1)
    | inr e ↦ rw e (Distinct-select key q xs d.1)
  ]

  pub All-weaken {κ μ} :
      (P : A → Type κ) (Q : A → Type μ)
      → ((x : A) → P x → Q x)
      → (xs : List A) → All P xs
      → All Q xs
  All-weaken P Q h [] a = tt
  All-weaken P Q h (x ∷ xs) (p, ps) = (h x p, All-weaken P Q h xs ps)

  pub All-select {κ} :
      (P : A → Type κ) (q : A → Bool) (xs : List A) → All P xs → All P (select q xs)
  All-select P q [] a = tt
  All-select P q (x ∷ xs) (p, ps) = elim (Bool-cases (q x)) [
    | inl e ↦ rw e (p, All-select P q xs ps)
    | inr e ↦ rw e (All-select P q xs ps)
  ]

  pub any-select : (p q : A → Bool) (xs : List A) → any p (select q xs) ≡ any (λ x. q x && p x) xs
  any-select p q [] = refl
  any-select p q (x ∷ xs) = elim (Bool-cases (q x)) [
    | inl e ↦ rw (e, any-select p q xs) refl
    | inr e ↦ rw (e, any-select p q xs) refl
  ]

  pub any-implies :
      (p q : A → Bool)
      → ((x : A) → p x ≡ true → q x ≡ true)
      → (xs : List A) → any p xs ≡ true
      → any q xs ≡ true
  any-implies p q h xs e = elim (Bool-cases (any q xs)) [
    | inl k ↦ k
    | inr k ↦ ground (arith, any-weaken p q h xs k)
  ]
