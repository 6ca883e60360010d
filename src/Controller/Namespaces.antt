-- ===== src/Controller/Namespaces.antt =====
-- The target namespaces that are no longer requested (internal/controller/rbac.go).
use cryostat_operator.Prelude.{
  ◌≡◌, refl, String, Bool, false, ◌&&◌, ◌||◌, not, ◌==◌, eq_iff, List, [], ◌∷◌, arith, contains,
  if◌then◌else◌,
}
use cryostat_operator.Api.Kube.{Kube}
use cryostat_operator.Common.Instance.{CryostatInstance}

unfoldable pub contains_namespace : List String → String → Bool
contains_namespace [] namespace = false
contains_namespace (ns ∷ rest) namespace = ns == namespace || contains_namespace rest namespace

-- The loop of `toDelete`.
unfoldable pub not_requested : List String → List String → List String
not_requested targets [] = []
not_requested targets (ns ∷ status) =
    let rest = not_requested targets status in
    if not (contains_namespace targets ns) then ns ∷ rest else rest

unfoldable pub to_delete : {K : Kube} → CryostatInstance K → List String
unfolding not_requested
to_delete cr = not_requested cr.target_namespaces cr.target_namespace_status

pub contains_namespace-eq-contains :
    (l : List String) (ns : String) → contains_namespace l ns ≡ contains l ns
unfolding contains_namespace contains
contains_namespace-eq-contains [] ns = refl
contains_namespace-eq-contains (x ∷ l) ns = rw (contains_namespace-eq-contains l ns)

contains-not_requested :
    (targets status : List String) (ns : String)
    → contains (not_requested targets status) ns ≡ (contains status ns && not (contains targets ns))
unfolding not_requested contains
contains-not_requested targets [] ns = refl
contains-not_requested targets (x ∷ status) ns = ground (
  arith,
  contains-not_requested targets status ns,
  contains_namespace-eq-contains targets x,
  eq_iff x ns,
)

-- A namespace is to be cleaned up if it is in the status and no longer in the spec, and only then.
pub contains-to_delete :
    {K : Kube} (cr : CryostatInstance K) (ns : String)
    → contains (to_delete cr) ns
      ≡ (contains cr.target_namespace_status ns && not (contains cr.target_namespaces ns))
unfolding to_delete
contains-to_delete cr ns = contains-not_requested cr.target_namespaces cr.target_namespace_status ns
