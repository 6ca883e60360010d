-- ===== src/Controller/Rbac/ServiceAccount.antt =====
-- The installation's service account, and the role of older versions (internal/controller/rbac.go).
use mathlib.Core.Path.{subst}
use cryostat_operator.Prelude.{
  ap, sym, ◌∙◌, inr, inl, ◌≡◌, ◌==◌, String, Bool, true, Option, none, some, [], ◌∷◌, get_or,
  if◌then◌else◌, arith,
}
use cryostat_operator.Prelude.Dict.{Dict}
use cryostat_operator.Api.Kube.{Kube}
use cryostat_operator.Common.Instance.{CryostatInstance}
use cryostat_operator.Common.Metadata.{Metadata, SetMetaData, SetsOne, value_of, set_each}
use cryostat_operator.Cluster.{Key, Ownership, IsOwnership, Resource, IsLawful, Getter, IsFaithful}
use cryostat_operator.Cluster.Apart.{IsApart}
use cryostat_operator.Cluster.Monad.{
  ok_injective, Result-of, Result, ok, and_then, and_then-eq-ok, M, pure, raise, lift, ◌>>=◌, catch,
  is_not_found,
}

-- What the code writes of a `ServiceAccount`, and reads of a `Role`.
pub record ServiceAccount (O : Ownership) : Type 0 where
  pub metadata : Metadata
  pub owners : O.Owners

pub record Role (O : Ownership) : Type 0 where
  pub owners : O.Owners

-- The encoding of an `OAuthRedirectReference` by its kind and its name (`json.Marshal`).
abbrev pub Marshal : Type 0
Marshal = String → String → Result String

abbrev pub redirect_annotation : String
redirect_annotation = "serviceaccounts.openshift.io/oauth-redirectreference.route"

module _ {O : Ownership} where
  abbrev pub new_account : ServiceAccount O
  new_account = record {
    metadata = record { labels = none; annotations = none };
    owners = O.no_owners;
  }

  -- The mutate function of `createOrUpdateServiceAccount`.
  unfoldable pub mutate_service_account :
      SetMetaData
      → Dict String
      → Dict String
      → Option (ServiceAccount O)
      → Result (ServiceAccount O)
  unfolding set_each
  mutate_service_account set labels annotations found =
      let sa = get_or found new_account in
      let metadata : Metadata = record {
        labels = set_each set sa.metadata.labels labels;
        annotations = set_each set sa.metadata.annotations annotations;
      } in
      and_then (O.set_controller sa.owners)
        λ owners. ok (record { metadata = metadata; owners = owners })

module _ {K : Kube} (cr : CryostatInstance K) where
  abbrev pub service_account_key : Key
  service_account_key = record { name = cr.name; namespace = cr.install_namespace }

  abbrev pub role_key : Key
  role_key = record { name = cr.name; namespace = cr.install_namespace }

  -- On OpenShift the account refers to the route, which has the installation's name.
  unfoldable pub service_account_annotations : Marshal → Bool → Result (Dict String)
  service_account_annotations marshal is_open_shift =
      if is_open_shift
      then and_then (marshal "Route" cr.name) (λ ref. ok ((redirect_annotation, ref) ∷ []))
      else ok []

module _ {O : Ownership} {S : Type 0} {K : Kube} (cr : CryostatInstance K) where
  unfoldable pub reconcile_service_account :
      Resource S (ServiceAccount O) → SetMetaData → Marshal → Bool → M S (Unit {0})
  unfolding service_account_annotations
  reconcile_service_account A set marshal is_open_shift =
      lift (service_account_annotations cr marshal is_open_shift) >>= λ annotations.
      A.create_or_update (service_account_key cr)
        (mutate_service_account set (("app", cr.name) ∷ []) annotations)

  -- A role that is not found has no owners; whether the deletion succeeds is not looked at.
  unfoldable pub clean_up_role : Resource S (Role O) → Getter S (Role O) → M S (Unit {0})
  clean_up_role R get =
      let absent : Role O = record { owners = O.no_owners } in
      catch (get (role_key cr)) (λ e. if is_not_found e then pure absent else raise e) >>= λ role.
      if O.is_controlled role.owners then catch (R.delete (role_key cr)) (λ _. pure tt) else pure tt

  unfoldable pub reconcile_role : Resource S (Role O) → Getter S (Role O) → M S (Unit {0})
  unfolding clean_up_role
  reconcile_role R get = clean_up_role R get

-- The account that the code makes of the one found: it has the installation as its controller and
-- the label `app`, and keeps its other labels.
pub record IsAccountOf {O : Ownership} (app : String) (found : Option (ServiceAccount O))
    (sa : ServiceAccount O) : Type 0 where
  pub controlled : O.is_controlled sa.owners ≡ true
  pub labelled :
      (key : String)
      → value_of key sa.metadata.labels ≡ (
          if key == "app"
          then some app
          else value_of key (get_or found new_account).metadata.labels)

module _ {O : Ownership} (IsO : IsOwnership O) (set : SetMetaData) (sets : SetsOne set) where
  mutate_service_account_ok :
      (app : String) (annotations : Dict String) (found : Option (ServiceAccount O))
      (sa : ServiceAccount O)
      → mutate_service_account set (("app", app) ∷ []) annotations found ≡ ok sa
      → IsAccountOf app found sa
  unfolding mutate_service_account
  mutate_service_account_ok app annotations found sa h =
      let (owners, set_owners, made) =
        and_then-eq-ok (O.set_controller (get_or found new_account).owners) _ h in
      record {
        controlled =
            subst (λ t. O.is_controlled t.owners ≡ true) (ok_injective made)
              (IsO.set_controller_ok _ owners set_owners);
        labelled = λ key.
            ap (λ t. value_of key t.metadata.labels) (sym (ok_injective made))
            ∙ sets (get_or found new_account).metadata.labels "app" app key;
      }

module _ {O : Ownership} {S : Type 0} {K : Kube} (cr : CryostatInstance K)
    (A : Resource S (ServiceAccount O)) (set : SetMetaData) (marshal : Marshal)
    (openshift : Bool) where
  -- After a success the account is there, with the installation as its controller.
  pub reconcile_service_account_ok :
      (L : IsLawful A) (IsO : IsOwnership O) (sets : SetsOne set) (s : S)
      → (reconcile_service_account cr A set marshal openshift s).0 ≡ ok tt
      → (sa : ServiceAccount O) × (A.read
            (reconcile_service_account cr A set marshal openshift s).1
            (service_account_key cr)
          ≡ some sa)
        × IsAccountOf cr.name (A.read s (service_account_key cr)) sa
  unfolding reconcile_service_account
  reconcile_service_account_ok L IsO sets s h =
      let k = service_account_key cr in
      elim (Result-of (service_account_annotations cr marshal openshift)) [
        | inl (annotations, made) ↦
            let f : Option (ServiceAccount O) → Result (ServiceAccount O) =
              mutate_service_account set (("app", cr.name) ∷ []) annotations in
            let (sa, mutated, stored) = L.create_or_update_ok k f s (ground arith) in
            (
              sa,
              ground arith,
              mutate_service_account_ok IsO set sets cr.name annotations (A.read s k) sa mutated,
            )
        | inr (e, failed) ↦ absurd (ground arith)
      ]

  pub reconcile_service_account_keeps :
      {X : Type 0} (view : S → X)
      → IsApart view A
      → (s : S) → view (reconcile_service_account cr A set marshal openshift s).1 ≡ view s
  unfolding reconcile_service_account
  reconcile_service_account_keeps view apart s =
      elim (Result-of (service_account_annotations cr marshal openshift)) [
        | inl (annotations, made) ↦
            let f : Option (ServiceAccount O) → Result (ServiceAccount O) =
              mutate_service_account set (("app", cr.name) ∷ []) annotations in
            ground (arith, apart.update_keeps (service_account_key cr) f s)
        | inr (e, failed) ↦ ground arith
      ]

module _ {O : Ownership} {S : Type 0} {K : Kube} (cr : CryostatInstance K) (R : Resource S (Role O))
    (get : Getter S (Role O)) (F : IsFaithful R get) where
  pub reconcile_role_keeps :
      {X : Type 0} (view : S → X)
      → IsApart view R
      → (s : S) → view (reconcile_role cr R get s).1 ≡ view s
  unfolding reconcile_role clean_up_role
  reconcile_role_keeps view apart s =
      ground (arith, F.get_keeps (role_key cr) s, apart.delete_keeps (role_key cr) s)
