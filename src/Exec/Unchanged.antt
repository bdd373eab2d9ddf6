-- ===== src/Exec/Unchanged.antt =====
-- What an action leaves as it was: one rule for each way to build an action.
use hedwig.Prelude.{Bool, Option, false, if◌then◌else◌, none, refl, some, true, ◌∙◌, ◌≡◌}
use hedwig.Exec.{
  Exc, Exec, Result, atomic, caught_by, err, get_or_raise, gets, modify, ok, pure, raise,
  rolled_back, then_with, try_except, ◌>>=◌,
}
use hedwig.Tables.{Db}

-- Whatever the action does and however it ends, `view` reads the same before and after.
pub record Unchanged {ℓ} {X : Type ℓ} {A : Type 0} (view : Db → X) (m : Exec A) : Type ℓ where
  pub same : (s : Db) → view (m s).1 ≡ view s

module _ {ℓ} {X : Type ℓ} (view : Db → X) where
  -- After a step, the rest of a block leaves the view as the step left it.
  pub then_same :
      {A B : Type 0} (k : A → Exec B) (r : Result A × Db) (x : X)
      → ((a : A) → Unchanged view (k a))
      → view r.1 ≡ x
      → view (then_with k r).1 ≡ x
  then_same k (ok a, t) x hk e = (hk a).same t ∙ e
  then_same k (err e', t) x hk e = e

  rolled_same :
      {A : Type 0} (s : Db) (r : Result A × Db)
      → view r.1 ≡ view s
      → view (rolled_back s r).1 ≡ view s
  rolled_same s (ok a, t) e = e
  rolled_same s (err x, t) e = refl

  caught_same :
      {A : Type 0} (h : Exc → Exec A) (r : Result A × Db) (x : X)
      → ((e : Exc) → Unchanged view (h e))
      → view r.1 ≡ x
      → view (caught_by h r).1 ≡ x
  caught_same h (ok a, t) x hh e = e
  caught_same h (err y, t) x hh e = (hh y).same t ∙ e

module _ {ℓ} {X : Type ℓ} {view : Db → X} where
  pub Unchanged-pure : {A : Type 0} (a : A) → Unchanged view (pure a)
  Unchanged-pure a = record { same = λ s. refl }

  pub Unchanged-raise : {A : Type 0} (e : Exc) → Unchanged view (raise {A = A} e)
  Unchanged-raise e = record { same = λ s. refl }

  pub Unchanged-gets : {A : Type 0} (f : Db → A) → Unchanged view (gets f)
  Unchanged-gets f = record { same = λ s. refl }

  pub Unchanged-modify :
      (f : Db → Db) → ((s : Db) → view (f s) ≡ view s) → Unchanged view (modify f)
  Unchanged-modify f h = record { same = h }

  pub Unchanged-get_or_raise : {A : Type 0} (o : Option A) → Unchanged view (get_or_raise o)
  Unchanged-get_or_raise none = Unchanged-raise Exc.does_not_exist
  Unchanged-get_or_raise (some a) = Unchanged-pure a

  pub Unchanged-if :
      {A : Type 0} (b : Bool) (m n : Exec A)
      → Unchanged view m
      → Unchanged view n
      → Unchanged view (if b then m else n)
  Unchanged-if true m n hm hn = hm
  Unchanged-if false m n hm hn = hn

  pub Unchanged-bind :
      {A B : Type 0} (m : Exec A) (k : A → Exec B)
      → Unchanged view m
      → ((a : A) → Unchanged view (k a))
      → Unchanged view (m >>= k)
  Unchanged-bind m k hm hk = record { same = λ s. then_same view k (m s) (view s) hk (hm.same s) }

  pub Unchanged-atomic : {A : Type 0} (m : Exec A) → Unchanged view m → Unchanged view (atomic m)
  Unchanged-atomic m hm = record { same = λ s. rolled_same view s (m s) (hm.same s) }

  pub Unchanged-try :
      {A : Type 0} (m : Exec A) (h : Exc → Exec A)
      → Unchanged view m
      → ((e : Exc) → Unchanged view (h e))
      → Unchanged view (try_except m h)
  Unchanged-try m h hm hh = record { same = λ s. caught_same view h (m s) (view s) hh (hm.same s) }

pub ruleset unchanged_rules = (
  Unchanged-pure, Unchanged-raise, Unchanged-gets, Unchanged-get_or_raise, Unchanged-if,
  Unchanged-bind, Unchanged-atomic, Unchanged-try,
)
