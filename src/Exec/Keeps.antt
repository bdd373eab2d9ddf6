-- ===== src/Exec/Keeps.antt =====
-- What an action never undoes: one rule for each way to build an action.
use hedwig.Exec.Unchanged.{Unchanged}
use hedwig.Prelude.{Bool, Option, false, if◌then◌else◌, none, some, true, ◌∙◌, ◌≡◌}
use hedwig.Exec.{
  Exc, Exec, Result, atomic, err, get_or_raise, gets, modify, ok, pure, raise, rolled_back,
  then_with, ◌>>=◌,
}
use hedwig.Tables.{Db}

-- If the property holds before the action it holds after it, however the action ends.
pub record Keeps {A : Type 0} (p : Db → Bool) (m : Exec A) : Type 0 where
  pub kept : (s : Db) → p s ≡ true → p (m s).1 ≡ true

module _ (p : Db → Bool) where
  pub then_kept :
      {A B : Type 0} (k : A → Exec B) (r : Result A × Db)
      → ((a : A) → Keeps p (k a))
      → p r.1 ≡ true
      → p (then_with k r).1 ≡ true
  then_kept k (ok a, t) hk e = (hk a).kept t e
  then_kept k (err x, t) hk e = e

  rolled_kept :
      {A : Type 0} (s : Db) (r : Result A × Db)
      → p s ≡ true
      → p r.1 ≡ true
      → p (rolled_back s r).1 ≡ true
  rolled_kept s (ok a, t) h e = e
  rolled_kept s (err x, t) h e = h

module _ {p : Db → Bool} where
  pub Keeps-pure : {A : Type 0} (a : A) → Keeps p (pure a)
  Keeps-pure a = record { kept = λ s h. h }

  pub Keeps-raise : {A : Type 0} (e : Exc) → Keeps p (raise {A = A} e)
  Keeps-raise e = record { kept = λ s h. h }

  pub Keeps-gets : {A : Type 0} (f : Db → A) → Keeps p (gets f)
  Keeps-gets f = record { kept = λ s h. h }

  pub Keeps-modify : (f : Db → Db) → ((s : Db) → p s ≡ true → p (f s) ≡ true) → Keeps p (modify f)
  Keeps-modify f h = record { kept = h }

  pub Keeps-get_or_raise : {A : Type 0} (o : Option A) → Keeps p (get_or_raise o)
  Keeps-get_or_raise none = Keeps-raise Exc.does_not_exist
  Keeps-get_or_raise (some a) = Keeps-pure a

  pub Keeps-if :
      {A : Type 0} (b : Bool) (m n : Exec A) → Keeps p m → Keeps p n → Keeps p (if b then m else n)
  Keeps-if true m n hm hn = hm
  Keeps-if false m n hm hn = hn

  pub Keeps-bind :
      {A B : Type 0} (m : Exec A) (k : A → Exec B)
      → Keeps p m
      → ((a : A) → Keeps p (k a))
      → Keeps p (m >>= k)
  Keeps-bind m k hm hk = record { kept = λ s h. then_kept p k (m s) hk (hm.kept s h) }

  pub Keeps-atomic : {A : Type 0} (m : Exec A) → Keeps p m → Keeps p (atomic m)
  Keeps-atomic m hm = record { kept = λ s h. rolled_kept p s (m s) h (hm.kept s h) }

  -- A step that does not touch what the property reads.
  pub Unchanged-Keeps : {A : Type 0} (m : Exec A) → Unchanged p m → Keeps p m
  Unchanged-Keeps m hm = record { kept = λ s h. hm.same s ∙ h }

pub ruleset keeps_rules =
    (Keeps-pure, Keeps-raise, Keeps-gets, Keeps-get_or_raise, Keeps-if, Keeps-bind, Keeps-atomic)
