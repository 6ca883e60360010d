-- ===== src/Common/Naming/Tests.antt =====
-- Names at concrete instances.
use Prim.Native.String.{count}
use cryostat_operator.Prelude.{◌≡◌, ◌≤◌, refl, String, arith}
use cryostat_operator.Common.Naming.{
  cluster_unique_name_with_prefix_target_ns, cluster_unique_short_name_with_prefix,
  prefix_with_kind, to_lower,
}
use cryostat_operator.Examples.{checksums, cryostat_kind}
use cryostat_operator.Common.Naming.Injective.{cluster_unique_name_injective}
use cryostat_operator.Common.Naming.Length.{cluster_unique_short_name_fits}

agent_name :
    cluster_unique_name_with_prefix_target_ns checksums cryostat_kind "agent" "c" "ns" "target"
    ≡ "cryostat-agent-ns/c/target"
unfolding cluster_unique_name_with_prefix_target_ns prefix_with_kind to_lower
agent_name = refl

cluster_unique_name_injective_example :
    (◌≡◌ {A = String} "c" "c") × (◌≡◌ {A = String} "ns" "ns") × (◌≡◌ {A = String} "t" "t")
cluster_unique_name_injective_example =
    cluster_unique_name_injective checksums cryostat_kind "agent" "c" "ns" "t" "c" "ns" "t"
      (omega arith) (omega arith) (omega arith) (omega arith) (λ e. e) refl

cluster_unique_short_name_fits_example :
    count (cluster_unique_short_name_with_prefix checksums cryostat_kind "agent" "c" "ns") ≤ 63
cluster_unique_short_name_fits_example =
    cluster_unique_short_name_fits checksums cryostat_kind "agent" "c" "ns" (λ s. refl)
      (omega arith)
