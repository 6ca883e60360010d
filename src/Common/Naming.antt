-- ===== src/Common/Naming.antt =====
-- Names that are unique in the cluster (internal/controller/common/common_utils.go and naming.go).
-- The checksums are parameters: their hexadecimal texts, as `fmt.Sprintf("%x", …)` prints them.
pub mod Injective
pub mod Length
mod Tests
use Prim.Native.Char.{Char, code}
use Prim.Native.String.{char_at}
use cryostat_operator.Prelude.{
  ℕ, ◌-◌, String, ◌<>◌, Bool, true, false, ◌&&◌, leb, ◌==◌, if◌then◌else◌,
}
use cryostat_operator.Api.Kube.{Kube}
use cryostat_operator.Common.Instance.{CryostatInstance}

pub record Checksums : Type 0 where
  pub sha256 : String → String
  pub fnv128 : String → String

pub record GroupVersionKind : Type 0 where
  pub group : String
  pub version : String
  pub kind : String

lower_char : Char → Char
lower_char c =
    if leb 65 (code c) && leb (code c) 90
    then char_at "abcdefghijklmnopqrstuvwxyz" (code c - 65)
    else c

-- `strings.ToLower` on ASCII texts, such as the kinds of this API.
unfoldable pub to_lower : String → String
unfolding lower_char
to_lower String.[] = String.[]
to_lower (String.◌∷◌ c s) = String.◌∷◌ (lower_char c) (to_lower s)

-- `len(s) > 0`
unfoldable pub is_nonempty : String → Bool
is_nonempty String.[] = false
is_nonempty (String.◌∷◌ c s) = true

unfoldable pub prefix_with_kind : GroupVersionKind → String → String
unfolding is_nonempty
prefix_with_kind gvk prefix =
    let kind = to_lower gvk.kind in if is_nonempty prefix then kind <> ("-" <> prefix) else kind

-- The text whose checksum is the name's suffix.
unfoldable pub to_hash : String → String → String → String
unfolding is_nonempty
to_hash name namespace target_ns =
    let own = namespace <> ("/" <> name) in
    if is_nonempty target_ns then own <> ("/" <> target_ns) else own

module _ (H : Checksums) where
  pub cluster_unique_name_of : GroupVersionKind → String → String → String → String → Bool → String
  unfolding to_hash
  cluster_unique_name_of gvk prefix name namespace target_ns short =
      let hashed = to_hash name namespace target_ns in
      prefix_with_kind gvk prefix <> ("-" <> (if short then H.fnv128 hashed else H.sha256 hashed))

  unfoldable pub cluster_unique_name_with_prefix_target_ns :
      GroupVersionKind → String → String → String → String → String
  unfolding cluster_unique_name_of
  cluster_unique_name_with_prefix_target_ns gvk prefix name namespace target_ns =
      cluster_unique_name_of gvk prefix name namespace target_ns false

  unfoldable pub cluster_unique_name_with_prefix :
      GroupVersionKind → String → String → String → String
  unfolding cluster_unique_name_with_prefix_target_ns
  cluster_unique_name_with_prefix gvk prefix name namespace =
      cluster_unique_name_with_prefix_target_ns gvk prefix name namespace ""

  unfoldable pub cluster_unique_name : GroupVersionKind → String → String → String
  unfolding cluster_unique_name_with_prefix
  cluster_unique_name gvk name namespace = cluster_unique_name_with_prefix gvk "" name namespace

  unfoldable pub cluster_unique_short_name_with_prefix :
      GroupVersionKind → String → String → String → String
  unfolding cluster_unique_name_of
  cluster_unique_short_name_with_prefix gvk prefix name namespace =
      cluster_unique_name_of gvk prefix name namespace "" true

  module _ {K : Kube} (gvk : GroupVersionKind) (cr : CryostatInstance K) where
    unfoldable pub agent_callback_service_name : String
    unfolding cluster_unique_short_name_with_prefix
    agent_callback_service_name =
        cluster_unique_short_name_with_prefix gvk "agent" cr.name cr.install_namespace

    unfoldable pub agent_certificate_name : String → String
    unfolding cluster_unique_name_with_prefix_target_ns
    agent_certificate_name target_namespace =
        cluster_unique_name_with_prefix_target_ns gvk "agent" cr.name cr.install_namespace
          target_namespace

unfoldable pub agent_gateway_service_name : {K : Kube} → CryostatInstance K → String
agent_gateway_service_name cr = cr.name <> "-agent"
