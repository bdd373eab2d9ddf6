-- ===== src/Exec.antt =====
-- Code that reads and writes the database and may raise. What was written before an exception stays
-- written, unless a `transaction.atomic()` block undoes it.
pub mod Unchanged
pub mod Keeps
pub mod Gives
use hedwig.Prelude.{String, Option, none, some}
use hedwig.Tables.{Db}

-- The exceptions that the modelled code raises or meets, with their messages.
pub data Exc : Type 0 where
  integrity_error does_not_exist : Exc
  quota_exceeded transient_send_error permanent_send_error validation_error value_error :
      String → Exc
  permission_denied not_found request_error : String → Exc

pub data Result (A : Type 0) : Type 0 where
  ok : A → Result A
  err : Exc → Result A

abbrev pub Exec : Type 0 → Type 0
Exec A = Db → Result A × Db

abbrev pub pure : {A : Type 0} → A → Exec A
pure a s = (ok a, s)

abbrev pub raise : {A : Type 0} → Exc → Exec A
raise e s = (err e, s)

abbrev pub gets : {A : Type 0} → (Db → A) → Exec A
gets f s = (ok (f s), s)

abbrev pub modify : (Db → Db) → Exec (Unit {0})
modify f s = (ok tt, f s)

abbrev pub then_with : {A B : Type 0} → (A → Exec B) → Result A × Db → Result B × Db
then_with f (ok a, s) = f a s
then_with f (err e, s) = (err e, s)

infixl 5 ◌>>=◌ ◌>>◌
abbrev pub ◌>>=◌ : {A B : Type 0} → Exec A → (A → Exec B) → Exec B
◌>>=◌ m f s = then_with f (m s)

abbrev pub ◌>>◌ : {B : Type 0} → Exec (Unit {0}) → Exec B → Exec B
m >> k = m >>= λ _. k

abbrev pub rolled_back : {A : Type 0} → Db → Result A × Db → Result A × Db
rolled_back s₀ (ok a, s) = (ok a, s)
rolled_back s₀ (err e, s) = (err e, s₀)

-- `with transaction.atomic()`
abbrev pub atomic : {A : Type 0} → Exec A → Exec A
atomic m s = rolled_back s (m s)

abbrev pub caught_by : {A : Type 0} → (Exc → Exec A) → Result A × Db → Result A × Db
caught_by h (ok a, s) = (ok a, s)
caught_by h (err e, s) = h e s

-- `try: m except …`, where `h` raises again what it does not catch.
abbrev pub try_except : {A : Type 0} → Exec A → (Exc → Exec A) → Exec A
try_except m h s = caught_by h (m s)

-- `.get(pk=…)`
abbrev pub get_or_raise : {A : Type 0} → Option A → Exec A
get_or_raise none = raise Exc.does_not_exist
get_or_raise (some a) = pure a
