-- ===== src/Common/Resources/Tests.antt =====
-- Defaults and limits at concrete requests, with quantities in a fixed unit.
use cryostat_operator.Prelude.{
  ℕ, ltb, ◌≡◌, refl, false, inl, String, none, some, [], ◌∷◌, ◌==◌, if◌then◌else◌, arith,
}
use cryostat_operator.Prelude.Dict.{lookup, insert}
use cryostat_operator.Common.Resources.{
  Quantities, ResourceRequirements, cpu, memory, populate_resource_request,
}
use cryostat_operator.Common.Resources.Bounds.{populate_within_limits}

abbrev parse : String → ℕ
parse text = if text == "10m" then 10 else if text == "32Mi" then 32 else 64

abbrev units : Quantities
units = record { Quantity = ℕ; zero_quantity = 0; less = ltb; must_parse = parse }

-- The user gives a limit of CPU alone, which is below the default request.
abbrev low : ResourceRequirements units
low = record { requests = none; limits = some ((cpu, 5) ∷ []) }

low_result :
    populate_resource_request units low "10m" "32Mi" "20m" "64Mi"
    ≡ record { requests = some ((cpu, 5) ∷ (memory, 32) ∷ []); limits = some ((cpu, 5) ∷ []) }
unfolding populate_resource_request lookup insert
low_result = refl

less_irrefl : (q : ℕ) → ltb q q ≡ false
less_irrefl q = ground arith

populate_within_limits_example : ltb 5 5 ≡ false
unfolding populate_resource_request lookup insert
populate_within_limits_example =
    populate_within_limits units low "10m" "32Mi" "20m" "64Mi" cpu 5 5 less_irrefl (inl refl) refl
      refl
