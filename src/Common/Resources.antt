-- ===== src/Common/Resources.antt =====
-- The defaults of resource requests (internal/controller/common/common_utils.go). Quantities are
-- those of Kubernetes: parsed from a text, and compared.
pub mod Bounds
mod Tests
use cryostat_operator.Prelude.{
  String, Bool, false, ◌&&◌, ◌||◌, not, Option, none, some, [], ◌∷◌, get_or, is_some, if◌then◌else◌,
}
use cryostat_operator.Prelude.Dict.{Dict, lookup, insert}

pub record Quantities : Type 1 where
  pub Quantity : Type 0
  -- What `requests.Cpu()` gives for a missing entry.
  pub zero_quantity : Quantity
  -- `a.Cmp(b) < 0`
  pub less : Quantity → Quantity → Bool
  -- `resource.MustParse`, on the texts that the operator gives it.
  pub must_parse : String → Quantity

abbrev pub cpu : String
cpu = "cpu"

abbrev pub memory : String
memory = "memory"

module _ (Q : Quantities) where
  abbrev pub ResourceList : Type 0
  ResourceList = Dict Q.Quantity

  -- `none` is a nil map.
  pub record ResourceRequirements : Type 0 where
    pub requests : Option ResourceList
    pub limits : Option ResourceList

  -- `if _, found := requests[k]; !found { requests[k] = … }`
  add_default : String → String → ResourceList → ResourceList
  add_default k text requests =
      if is_some (lookup k requests) then requests else insert k (Q.must_parse text) requests

  -- One of the two checks: a request above its limit is lowered to the limit.
  lower_to_limit : String → ResourceList → ResourceList → ResourceList
  lower_to_limit k limits requests = elim (lookup k limits) [
    | none ↦ requests
    | some limit ↦
        if Q.less limit (get_or (lookup k requests) Q.zero_quantity)
        then insert k limit requests
        else requests
  ]

  unfoldable pub check_resource_request_with_limit :
      ResourceList → Option ResourceList → ResourceList
  unfolding lower_to_limit
  check_resource_request_with_limit requests none = requests
  check_resource_request_with_limit requests (some limits) =
      lower_to_limit memory limits (lower_to_limit cpu limits requests)

  -- The four texts are the default requests and limits of CPU and memory.
  unfoldable pub populate_resource_request :
      ResourceRequirements → String → String → String → String → ResourceRequirements
  unfolding add_default check_resource_request_with_limit
  populate_resource_request resources cpu_request memory_request cpu_limit memory_limit =
      let custom = is_some resources.requests || is_some resources.limits in
      let requests =
        add_default memory memory_request
          (add_default cpu cpu_request (get_or resources.requests [])) in
      let limits =
        if not custom
        then some ((cpu, Q.must_parse cpu_limit) ∷ (memory, Q.must_parse memory_limit) ∷ [])
        else resources.limits in
      record {
        requests = some (check_resource_request_with_limit requests limits);
        limits = limits;
      }
