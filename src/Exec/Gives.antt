-- ===== src/Exec/Gives.antt =====
-- What holds after an action that answers.
use hedwig.Exec.Keeps.{Keeps}
use hedwig.Prelude.{Bool, refl, true, ◌≡◌}
use hedwig.Exec.{Exec, Result, atomic, err, ok, rolled_back, then_with, ◌>>=◌}
use hedwig.Tables.{Db}

-- If the action answers, the property holds after it, whatever was before.
pub record Gives {A : Type 0} (p : Db → Bool) (m : Exec A) : Type 0 where
  pub given : (s : Db) (a : A) → (m s).0 ≡ ok a → p (m s).1 ≡ true

rolled_given :
    {A : Type 0} (p : Db → Bool) (s : Db) (r : Result A × Db) (a : A)
    → ((a : A) → r.0 ≡ ok a → p r.1 ≡ true)
    → (rolled_back s r).0 ≡ ok a
    → p (rolled_back s r).1 ≡ true
rolled_given p s (ok b, t) a hm h = hm b refl
rolled_given p s (err e, t) a hm h = cc

module _ {p : Db → Bool} where
  then_given :
      {A B : Type 0} (k : A → Exec B) (r : Result A × Db) (b : B)
      → ((a : A) → Gives p (k a))
      → (then_with k r).0 ≡ ok b
      → p (then_with k r).1 ≡ true
  then_given k (ok a, t) b hk h = (hk a).given t b h
  then_given k (err e, t) b hk h = cc

  -- The rest of a block gives it.
  pub Gives-rest :
      {A B : Type 0} (m : Exec A) (k : A → Exec B) → ((a : A) → Gives p (k a)) → Gives p (m >>= k)
  Gives-rest m k hk = record { given = λ s b h. then_given k (m s) b hk h }

  rest_kept :
      {A B : Type 0} (k : A → Exec B) (r : Result A × Db) (b : B)
      → ((a : A) → r.0 ≡ ok a → p r.1 ≡ true)
      → ((a : A) → Keeps p (k a))
      → (then_with k r).0 ≡ ok b
      → p (then_with k r).1 ≡ true
  rest_kept k (ok a, t) b hm hk h = (hk a).kept t (hm a refl)
  rest_kept k (err e, t) b hm hk h = cc

  -- The first step gives it, and the rest keeps it.
  pub Gives-first :
      {A B : Type 0} (m : Exec A) (k : A → Exec B)
      → Gives p m
      → ((a : A) → Keeps p (k a))
      → Gives p (m >>= k)
  Gives-first m k hm hk = record { given = λ s b h. rest_kept k (m s) b (hm.given s) hk h }

  pub Gives-atomic : {A : Type 0} (m : Exec A) → Gives p m → Gives p (atomic m)
  Gives-atomic m hm = record { given = λ s a h. rolled_given p s (m s) a (hm.given s) h }
