-- ===== src/Controller/PerNamespace.antt =====
-- Objects of which each target namespace has one: they are made sure of in the target namespaces, and
-- then removed from the namespaces that are not targeted any more.
use cryostat_operator.Prelude.{◌≡◌, ◌∙◌, String, true, false, ◌==◌, Option, none, arith, contains}
use cryostat_operator.Api.Kube.{Kube}
use cryostat_operator.Common.Instance.{CryostatInstance}
use cryostat_operator.Cluster.Monad.{ok, M, ◌>>◌}
use cryostat_operator.Cluster.Loop.{for_each, for_each_done, for_each_frame, >>-eq-ok}
use cryostat_operator.Controller.Namespaces.{to_delete, contains-to_delete}

module _ {S Obj : Type 0} (ensure remove : String → M S (Unit {0})) (view : S → String → Option Obj)
    (P : String → Option Obj → Type 0)
    (ensure-frame : (ns j : String) (s : S) → (ns == j) ≡ false → view (ensure ns s).1 j ≡ view s j)
    (ensure_done : (ns : String) (s : S) → (ensure ns s).0 ≡ ok tt → P ns (view (ensure ns s).1 ns))
    (remove-frame : (ns j : String) (s : S) → (ns == j) ≡ false → view (remove ns s).1 j ≡ view s j)
    (remove_done : (ns : String) (s : S) → (remove ns s).0 ≡ ok tt → view (remove ns s).1 ns ≡ none)
    {K : Kube} (cr : CryostatInstance K) where
  abbrev pub sync : M S (Unit {0})
  sync = do for_each cr.target_namespaces ensure; for_each (to_delete cr) remove

  kept_by_removal :
      (t : S) (ns : String)
      → contains (to_delete cr) ns ≡ false
      → view (for_each (to_delete cr) remove t).1 ns ≡ view t ns
  kept_by_removal t ns h =
      for_each_frame remove view (λ _ found. found ≡ none) remove-frame remove_done (to_delete cr) t
        ns h

  pub sync_target :
      (s : S) (ns : String)
      → (sync s).0 ≡ ok tt
      → contains cr.target_namespaces ns ≡ true
      → P ns (view (sync s).1 ns)
  sync_target s ns h target =
      let bind = for_each cr.target_namespaces ensure in
      let (bound, cleaned, after) = >>-eq-ok bind (for_each (to_delete cr) remove) s h in
      let kept = kept_by_removal (bind s).1 ns (rw (contains-to_delete cr ns) (ground arith)) in
      rw after (
        rw kept (
          for_each_done ensure view P ensure-frame ensure_done cr.target_namespaces s ns bound
            target))

  pub sync_dropped :
      (s : S) (ns : String)
      → (sync s).0 ≡ ok tt
      → contains cr.target_namespaces ns ≡ false
      → contains cr.target_namespace_status ns ≡ true
      → view (sync s).1 ns ≡ none
  sync_dropped s ns h other dropped =
      let bind = for_each cr.target_namespaces ensure in
      let (bound, cleaned, after) = >>-eq-ok bind (for_each (to_delete cr) remove) s h in
      rw after (
        for_each_done remove view (λ _ found. found ≡ none) remove-frame remove_done (to_delete cr)
          (bind s).1 ns cleaned (rw (contains-to_delete cr ns) (ground arith)))

  pub sync_other :
      (s : S) (ns : String)
      → (sync s).0 ≡ ok tt
      → contains cr.target_namespaces ns ≡ false
      → contains cr.target_namespace_status ns ≡ false
      → view (sync s).1 ns ≡ view s ns
  sync_other s ns h other unknown =
      let bind = for_each cr.target_namespaces ensure in
      let (bound, cleaned, after) = >>-eq-ok bind (for_each (to_delete cr) remove) s h in
      let kept = kept_by_removal (bind s).1 ns (rw (contains-to_delete cr ns) (ground arith)) in
      rw after (
        kept
        ∙ for_each_frame ensure view P ensure-frame ensure_done cr.target_namespaces s ns other)
