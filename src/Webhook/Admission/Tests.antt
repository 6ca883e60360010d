-- ===== src/Webhook/Admission/Tests.antt =====
-- Admission of concrete objects under a concrete policy.
use cryostat_operator.Webhook.Admission.Permission.{first_denied}
use cryostat_operator.Webhook.Admission.{validate_create, check_namespace}
use cryostat_operator.Cluster.Loop.{for_each}
use cryostat_operator.Prelude.{
  ◌≡◌, refl, String, Bool, true, ◌==◌, none, some, List, [], ◌∷◌, contains,
}
use cryostat_operator.Api.V1beta2.{Cryostat}
use cryostat_operator.Examples.{texts, empty_cryostat}
use cryostat_operator.Cluster.Monad.{ok, err, not_permitted, M}
use cryostat_operator.Webhook.Admission.{
  UserInfo, AccessReview, review_of, validate, default_cryostat,
}
use cryostat_operator.Webhook.Admission.Permission.{
  validate_permitted, validate_by_policy, validate_create-default_cryostat, default_cryostat_fills,
}

abbrev user : UserInfo
user = record { username = "u"; groups = []; uid = ""; extra = none }

-- Only the namespace "a" is allowed.
abbrev policy : AccessReview → Bool
policy r = r.namespace == "a"

abbrev review : AccessReview → M (Unit {0}) Bool
review r s = (ok (policy r), s)

abbrev targeting : List String → Cryostat texts
targeting l = record empty_cryostat {
  spec = record (empty_cryostat.spec) { target_namespaces = some l };
}

abbrev own : Cryostat texts
own = record empty_cryostat { object_meta = ("c", "a") }

validate_permitted_example : (t : Unit {0}) × ((review (review_of user "a") t).0 ≡ ok true)
unfolding validate for_each check_namespace review_of contains
validate_permitted_example =
    validate_permitted review user "create" (targeting ("a" ∷ [])) tt "a" refl refl

validate_by_policy_example :
    (validate review (some user) (targeting ("a" ∷ "b" ∷ [])) "update" tt).0
    ≡ err (not_permitted "update" "b")
unfolding first_denied review_of
validate_by_policy_example =
    validate_by_policy review policy user "update" (targeting ("a" ∷ "b" ∷ [])) tt (λ r t. refl)

-- The object's own namespace is "a", which is allowed.
validate_create-default_cryostat_example :
    (validate_create review (some user) (default_cryostat own) tt).0 ≡ ok tt
unfolding first_denied review_of
validate_create-default_cryostat_example =
    validate_create-default_cryostat review policy user own tt (λ r t. refl)

-- An empty list of target namespaces is not defaulted, and nothing is reviewed.
empty_targets :
    (validate_create review
      (some user)
      (default_cryostat (record (targeting []) { object_meta = ("c", "b") }))
      tt).0
    ≡ ok tt
unfolding validate_create for_each default_cryostat
empty_targets = refl

default_cryostat_fills_example :
    (default_cryostat (targeting ("a" ∷ []))).spec.target_namespaces ≡ some ("a" ∷ [])
default_cryostat_fills_example = (default_cryostat_fills (targeting ("a" ∷ []))).1 ("a" ∷ []) refl
