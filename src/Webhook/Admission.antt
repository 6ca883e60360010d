-- ===== src/Webhook/Admission.antt =====
-- Defaults and validation of Cryostat objects (internal/webhook/v1beta2/defaulter.go, validator.go).
pub mod Permission
mod Tests
use cryostat_operator.Prelude.{
  String, Bool, true, false, not, ◌&&◌, ◌==◌, Option, none, some, List, [], ◌∷◌, get_or, is_some,
  if◌then◌else◌,
}
use cryostat_operator.Prelude.Dict.{Dict, copy}
use cryostat_operator.Api.Kube.{Kube}
use cryostat_operator.Api.V1beta2.{Cryostat}
use cryostat_operator.Cluster.Monad.{
  Err, failure, not_permitted, M, pure, raise, catch, ◌>>=◌, ◌>>◌,
}
use cryostat_operator.Cluster.Loop.{for_each}

-- `cryostatDefaulter.Default`
unfoldable pub default_cryostat : {K : Kube} → Cryostat K → Cryostat K
default_cryostat {K} cr =
    let targets = get_or cr.spec.target_namespaces (K.namespace cr.object_meta ∷ []) in
    let is_new = K.is_uncreated cr.object_meta && K.resource_version cr.object_meta == "" in
    let audit : Option Bool =
      if not (is_some cr.spec.enable_audit) && is_new then some true else cr.spec.enable_audit in
    record cr { spec = record (cr.spec) { target_namespaces = some targets; enable_audit = audit } }

-- The user of an admission request.
pub record UserInfo : Type 0 where
  pub username : String
  pub groups : List String
  pub uid : String
  pub extra : Option (Dict (List String))

-- The specification of a `SubjectAccessReview` of a resource.
pub record AccessReview : Type 0 where
  pub user : String
  pub groups : List String
  pub uid : String
  pub extra : Option (Dict (List String))
  pub namespace : String
  pub verb : String
  pub group : String
  pub version : String
  pub resource : String

unfoldable pub translate_extra : Option (Dict (List String)) → Option (Dict (List String))
translate_extra none = none
translate_extra (some extra) = some (copy extra [])

unfoldable pub review_of : UserInfo → String → AccessReview
unfolding translate_extra
review_of user namespace = record {
  user = user.username;
  groups = user.groups;
  uid = user.uid;
  extra = translate_extra user.extra;
  namespace = namespace;
  verb = "create";
  group = "operator.cryostat.io";
  version = "v1beta2";
  resource = "cryostats";
}

-- `review` is `client.Create` of an access review: whether the access is allowed.
module _ {S : Type 0} (review : AccessReview → M S Bool) where
  unfoldable pub check_namespace : UserInfo → String → String → M S (Unit {0})
  check_namespace user op namespace = do
    allowed ←
        catch (review (review_of user namespace)) λ e. raise (failure "failed to check permissions")
    if allowed then pure tt else raise (not_permitted op namespace)

  -- There is no user if the context has no admission request.
  unfoldable pub validate : {K : Kube} → Option UserInfo → Cryostat K → String → M S (Unit {0})
  validate none cr op = raise (failure "no admission request found in context")
  validate (some user) cr op =
      for_each (get_or cr.spec.target_namespaces []) (check_namespace user op)

  unfoldable pub validate_create : {K : Kube} → Option UserInfo → Cryostat K → M S (Unit {0})
  unfolding validate
  validate_create request cr = validate request cr "create"

  unfoldable pub validate_update :
      {K : Kube} → Option UserInfo → Cryostat K → Cryostat K → M S (Unit {0})
  unfolding validate
  validate_update request old_cr cr = validate request cr "update"

  unfoldable pub validate_delete : {K : Kube} → Cryostat K → M S (Unit {0})
  validate_delete cr = pure tt
