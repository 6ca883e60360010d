-- ===== src/Cluster.antt =====
-- What the controllers ask of the Kubernetes API and of `controllerutil`: neither is part of this
-- repository. Each kind of object is a record of calls on an unknown state, with the documented
-- behaviour of the calls as laws. The calls run one after the other: what other clients do between
-- two of them is not modelled.
pub mod Monad
pub mod Loop
pub mod Delete
pub mod Recreate
pub mod Apart
pub mod Self
pub mod Memory
use cryostat_operator.Prelude.{
  eq_iff, arith, ◌≡◌, ◌⊎◌, String, Bool, true, false, ◌&&◌, ◌==◌, Option, none, some, if◌then◌else◌,
}
use Monad.{Result, ok, err, Err, api, failure, ApiError, not_found, M}

-- A namespaced name.
pub record Key : Type 0 where
  pub name : String
  pub namespace : String

abbrev pub same_key : Key → Key → Bool
same_key k j = k.name == j.name && k.namespace == j.namespace

pub same_key-eq : (k j : Key) → same_key k j ≡ true → k ≡ j
same_key-eq k j h = ground (arith, eq_iff k.name j.name, eq_iff k.namespace j.namespace)

-- `controllerutil.SetControllerReference` with the installation's object as the owner: what it makes
-- of an object's owner references, or its error if another controller owns the object.
pub record Ownership : Type 1 where
  pub Owners : Type 0
  pub no_owners : Owners
  pub set_controller : Owners → Result Owners
  -- `metav1.IsControlledBy` for the installation's object.
  pub is_controlled : Owners → Bool

-- Its documented behaviour: an object without owners has no controller; the owner that is set is the
-- controller; the error is one of its own that names the other controller.
pub record IsOwnership (O : Ownership) : Type 0 where
  pub no_owners_uncontrolled : O.is_controlled O.no_owners ≡ false
  pub set_controller_ok :
      (o controlled : O.Owners)
      → O.set_controller o ≡ ok controlled
      → O.is_controlled controlled ≡ true
  pub set_controller_err :
      (o : O.Owners) (e : Err) → O.set_controller o ≡ err e → (t : String) × (e ≡ failure t)

-- The calls for one kind of object. `read` is what the API server holds.
pub record Resource (S : Type 0) (Obj : Type 0) : Type 0 where
  pub read : S → Key → Option Obj
  -- `controllerutil.CreateOrUpdate`: the mutate function is given the stored object, or `none` for
  -- an object that is to be created, whose creation timestamp is zero.
  pub create_or_update : Key → (Option Obj → Result Obj) → M S (Unit {0})
  -- `client.Delete`
  pub delete : Key → M S (Unit {0})

pub record IsLawful {S : Type 0} {Obj : Type 0} (R : Resource S Obj) : Type 0 where
  -- A call leaves every other object alone, whether it succeeds or not.
  pub create_or_update_frame :
      (k j : Key) (f : Option Obj → Result Obj) (s : S)
      → same_key k j ≡ false
      → R.read (R.create_or_update k f s).1 j ≡ R.read s j
  pub delete_frame :
      (k j : Key) (s : S) → same_key k j ≡ false → R.read (R.delete k s).1 j ≡ R.read s j
  -- On success the server holds what the mutate function returned.
  pub create_or_update_ok :
      (k : Key) (f : Option Obj → Result Obj) (s : S)
      → (R.create_or_update k f s).0 ≡ ok tt
      → (o : Obj) × (f (R.read s k) ≡ ok o) × (R.read (R.create_or_update k f s).1 k ≡ some o)
  -- An error is one of the API's, or the one that the mutate function returned.
  pub create_or_update_err :
      (k : Key) (f : Option Obj → Result Obj) (s : S) (e : Err)
      → (R.create_or_update k f s).0 ≡ err e
      → ((x : ApiError) × (e ≡ api x)) ⊎ (f (R.read s k) ≡ err e)
  pub delete_ok : (k : Key) (s : S) → (R.delete k s).0 ≡ ok tt → R.read (R.delete k s).1 k ≡ none
  pub delete_not_found :
      (k : Key) (s : S) → (R.delete k s).0 ≡ err (api not_found) → R.read (R.delete k s).1 k ≡ none
  -- The errors of `client.Delete` are the API's.
  pub delete_err :
      (k : Key) (s : S) (e : Err) → (R.delete k s).0 ≡ err e → (x : ApiError) × (e ≡ api x)

-- `client.Get`
abbrev pub Getter : Type 0 → Type 0 → Type 0
Getter S Obj = Key → M S Obj

-- It reads what the server holds or fails, and changes nothing; its errors are the API's.
pub record IsFaithful {S : Type 0} {Obj : Type 0} (R : Resource S Obj) (get : Getter S Obj)
    : Type 0 where
  pub get_keeps : (k : Key) (s : S) → (get k s).1 ≡ s
  pub get_ok : (k : Key) (s : S) (o : Obj) → (get k s).0 ≡ ok o → R.read s k ≡ some o
  pub get_not_found : (k : Key) (s : S) → (get k s).0 ≡ err (api not_found) → R.read s k ≡ none
  pub get_err : (k : Key) (s : S) (e : Err) → (get k s).0 ≡ err e → (x : ApiError) × (e ≡ api x)
