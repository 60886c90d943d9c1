-- ===== src/Core/Error.antt =====
-- crates/wattwarden-core/src/error.rs. The texts that an error carries for its message are left
-- out; the kind of the error is what callers tell apart.
use wattwarden.Base.{ℕ, Bool, true, false}

pub data WattWardenError : Type 0 where
  io general_io parse_int parse_float interface_not_found permission_denied : WattWardenError
  out_of_bounds : ℕ → ℕ → ℕ → WattWardenError
  unsupported config ipc json : WattWardenError

pub data Result {ℓ} (A : Type ℓ) : Type ℓ where
  ok : A → Result A
  err : WattWardenError → Result A

abbrev pub Done : Type 0
Done = Result (Unit {0})

-- `unwrap_or`
abbrev pub unwrap_or {ℓ} : {A : Type ℓ} → A → Result A → A
unwrap_or a (ok b) = b
unwrap_or a (err e) = a

-- `is_ok`
abbrev pub is_ok {ℓ} : {A : Type ℓ} → Result A → Bool
is_ok (ok a) = true
is_ok (err e) = false
