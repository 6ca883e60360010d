-- ===== src/Webhook/Agent/Bounds.antt =====
-- The numbers that labels give are in the range of an `int32`.
use mathlib.Core.Path.{subst}
use cryostat_operator.Prelude.{
  ◌≡◌, ◌∙◌, ap, ◌≤◌, ◌<◌, ℕ, zero, suc, some, Option-cases, arith, inl, inr,
}
use cryostat_operator.Prelude.Int.{ℤ, pos, negsuc}
use cryostat_operator.Prelude.Strconv.{parse_int, Fits, parse_int-Fits}
use cryostat_operator.Api.Kube.{StringMap}
use cryostat_operator.Common.Constants.{
  agent_callback_container_port, agent_label_callback_port, agent_label_harvester_max_files,
}
use cryostat_operator.Common.Metadata.Laws.{value_at}
use cryostat_operator.Cluster.Monad.{ok}
use cryostat_operator.Webhook.Agent.{if_positive, get_agent_callback_port, get_harvester_max_files}

-- A callback port that is taken from a pod's labels, or by default, is in the range of an `int32`:
-- its conversion to `int32` loses nothing.
pub get_agent_callback_port-Fits :
    (labels : StringMap) (port : ℤ) → get_agent_callback_port labels ≡ ok port → Fits 32 port
unfolding get_agent_callback_port
get_agent_callback_port-Fits labels port h =
    elim (Option-cases (value_at agent_label_callback_port labels)) [
      | inl unset ↦
          let default : agent_callback_container_port ≡ port = ground arith in
          subst (Fits 32) default (omega arith)
      | inr (text, given) ↦ elim (Option-cases (parse_int 32 text)) [
        | inl invalid ↦ absurd (ground arith)
        | inr (parsed, valid) ↦
            let same : parsed ≡ port = ground arith in
            parse_int-Fits text port (valid ∙ ap some same)
      ]
    ]

if_positive_bounds :
    (parsed files : ℤ)
    → Fits 32 parsed
    → if_positive parsed ≡ ok (some files)
    → (n : ℕ) × (files ≡ pos n) × (1 ≤ n) × (n < 2147483648)
if_positive_bounds (pos zero) files fits h = cc
if_positive_bounds (pos (suc n)) files fits h = (suc n, ground arith, ground arith, ground arith)
if_positive_bounds (negsuc n) files fits h = cc

-- A number of harvested files that a pod's labels give is positive and in the range of an `int32`.
pub get_harvester_max_files_bounds :
    (labels : StringMap) (files : ℤ)
    → get_harvester_max_files labels ≡ ok (some files)
    → (n : ℕ) × (files ≡ pos n) × (1 ≤ n) × (n < 2147483648)
unfolding get_harvester_max_files
get_harvester_max_files_bounds labels files h =
    elim (Option-cases (value_at agent_label_harvester_max_files labels)) [
      | inl unset ↦ absurd (ground arith)
      | inr (text, given) ↦ elim (Option-cases (parse_int 32 text)) [
        | inl invalid ↦ absurd (ground arith)
        | inr (parsed, valid) ↦
            if_positive_bounds parsed files (parse_int-Fits text parsed valid) (ground arith)
      ]
    ]
