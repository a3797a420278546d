-- ===== src/Outcome.antt =====
-- src/vps/vfm/include/common.h: the error codes, and the result of a C function. A function that
-- returns an error leaves its output parameters alone, so `err` carries the code only. `fault` is
-- undefined behaviour: an access outside an object, through NULL, or of a value never written.
use vfm.Base.{ℕ, ◌≡◌, refl, Option, none, some}

-- `vps_error`, less `VPS_SUCCESS`
pub data VpsError : Type 0 where
  db_init ignore sock_open sock_bind read tunnel incomplete_pk : VpsError
  get_mac get_ifindex get_mtu send_pk : VpsError
  db_error db_invalid db_invalid_resource map_full no_entry : VpsError

-- the numbers of common.h
unfoldable pub code : VpsError → ℕ
code db_init = 1
code ignore = 2
code sock_open = 3
code sock_bind = 4
code read = 5
code tunnel = 6
code incomplete_pk = 7
code get_mac = 8
code get_ifindex = 9
code get_mtu = 10
code send_pk = 11
code db_error = 100
code db_invalid = 101
code db_invalid_resource = 102
code map_full = 200
code no_entry = 201

-- How a C call ends.
pub data Outcome {ℓ} (A : Type ℓ) : Type ℓ where
  fault : Outcome A
  err : VpsError → Outcome A
  ok : A → Outcome A

-- What comes after a call runs only if the call succeeds.
infixl 5 ◌>>=◌
abbrev pub ◌>>=◌ {ℓ κ} :
    {Before : Type ℓ} {After : Type κ} → Outcome Before → (Before → Outcome After) → Outcome After
fault >>= next = fault
err e >>= next = err e
ok before >>= next = next before

-- An access that is out of range, or through NULL, is a fault.
abbrev pub or_fault {ℓ} : {A : Type ℓ} → Option A → Outcome A
or_fault none = fault
or_fault (some a) = ok a

pub >>=-ok {ℓ} : {A : Type ℓ} (m : Outcome A) → (m >>= λ a. ok a) ≡ m
>>=-ok fault = refl
>>=-ok (err _) = refl
>>=-ok (ok _) = refl
