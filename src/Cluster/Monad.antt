-- ===== src/Cluster/Monad.antt =====
-- The errors of the controllers, and their state and error monad.
use cryostat_operator.Prelude.{
  ◌≡◌, refl, ◌⊎◌, inl, inr, String, Bool, true, false, Option, none, some,
}

pub data ApiError : Type 0 where
  not_found invalid bad_request : ApiError
  other : String → ApiError

-- The errors that the code tells apart: those of the API, and its own.
pub data Err : Type 0 where
  api : ApiError → Err
  role_ref_modified certificate_modified selector_modified config_map_immutable_modified : Err
  cert_not_ready cert_manager_missing ingress_not_ready database_secret_updated : Err
  failure : String → Err
  -- The operation and the namespace.
  not_permitted : String → String → Err
  -- A dereference of a nil pointer, or an assignment to a key of a nil map: Go panics.
  nil_pointer : Err
  -- A recursion of the model ran out of fuel: no error of the code.
  out_of_fuel : Err

pub data Result {ℓ} (A : Type ℓ) : Type ℓ where
  ok : A → Result A
  err : Err → Result A

abbrev pub and_then : {A B : Type 0} → Result A → (A → Result B) → Result B
and_then (ok a) f = f a
and_then (err e) f = err e

-- `*p`
abbrev pub deref : {A : Type 0} → Option A → Result A
deref none = err nil_pointer
deref (some a) = ok a

-- A call returns its result, or an error, and the state that it leaves.
abbrev pub M : Type 0 → Type 0 → Type 0
M S A = S → Result A × S

abbrev pub pure : {S A : Type 0} → A → M S A
pure a s = (ok a, s)

abbrev pub raise : {S A : Type 0} → Err → M S A
raise e s = (err e, s)

-- A result of a computation without calls.
abbrev pub lift : {S A : Type 0} → Result A → M S A
lift r s = (r, s)

abbrev pub then_do : {S A B : Type 0} → Result A × S → (A → M S B) → Result B × S
then_do (ok a, s) f = f a s
then_do (err e, s) f = (err e, s)

infixl 5 ◌>>=◌ ◌>>◌
abbrev pub ◌>>=◌ : {S A B : Type 0} → M S A → (A → M S B) → M S B
◌>>=◌ m f s = then_do (m s) f

abbrev pub ◌>>◌ : {S B : Type 0} → M S (Unit {0}) → M S B → M S B
m >> k = m >>= λ _. k

abbrev pub or_handle : {S A : Type 0} → Result A × S → (Err → M S A) → Result A × S
or_handle (ok a, s) handler = (ok a, s)
or_handle (err e, s) handler = handler e s

-- `if err != nil { … }` with a handler of the error.
abbrev pub catch : {S A : Type 0} → M S A → (Err → M S A) → M S A
catch m handler s = or_handle (m s) handler

abbrev pub is_not_found : Err → Bool
is_not_found (api not_found) = true
is_not_found _ = false

-- `if err != nil && !kerrors.IsNotFound(err) { return err }; return nil`
unfoldable pub ignore_not_found : {S : Type 0} → M S (Unit {0}) → M S (Unit {0})
ignore_not_found m = catch m λ e. elim (is_not_found e) [ true ↦ pure tt | false ↦ raise e ]

pub Result-cases : (r : Result (Unit {0})) → (r ≡ ok tt) ⊎ ((e : Err) × (r ≡ err e))
Result-cases (ok a) = inl refl
Result-cases (err e) = inr (e, refl)

-- A computation that succeeds has succeeded in its first part.
pub and_then-eq-ok :
    {A B : Type 0} (r : Result A) (f : A → Result B) {b : B}
    → and_then r f ≡ ok b
    → (a : A) × (r ≡ ok a) × (f a ≡ ok b)
and_then-eq-ok (ok a) f h = (a, refl, h)
and_then-eq-ok (err e) f h = cc

pub ok_injective : {A : Type 0} {a b : A} → ok a ≡ ok b → a ≡ b
ok_injective h = cc

pub Result-of : {A : Type 0} (r : Result A) → ((a : A) × (r ≡ ok a)) ⊎ ((e : Err) × (r ≡ err e))
Result-of (ok a) = inl (a, refl)
Result-of (err e) = inr (e, refl)
