-- ===== src/Procfs/Error.antt =====
-- Errors and their classes, internal/procfs/procfs.go. Of an error the program asks only, by
-- `errors.Is`, whether it is one of six; so an error is its answers. An error that parsing makes
-- (`fmt.Errorf`, `strconv`) is none of them.
use cpu_process_exporter.Base.{Bool, false, ◌||◌}

pub data Sentinel : Type 0 where
  err_not_exist err_permission esrch eio eacces eperm : Sentinel

pub record Error : Type 0 where
  pub is : Sentinel → Bool

abbrev pub malformed : Error
malformed = record { is = λ s. false }

pub data Result {ℓ} (A : Type ℓ) : Type ℓ where
  ok : A → Result A
  err : Error → Result A

infixl 5 ◌>>=◌
abbrev pub ◌>>=◌ {ℓ κ} : {A : Type ℓ} {B : Type κ} → Result A → (A → Result B) → Result B
ok a >>= f = f a
err e >>= f = err e

-- The test for a nil error is the constructor: these are called on `err e` only.
unfoldable pub is_vanished : Error → Bool
is_vanished e = e.is err_not_exist || e.is esrch || e.is eio

unfoldable pub is_denied : Error → Bool
is_denied e = e.is err_permission || e.is eacces || e.is eperm
