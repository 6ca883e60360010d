-- ===== src/Controller/VolumeClaims/Stored.antt =====
-- What the cluster holds after a volume claim is reconciled.
use cryostat_operator.Prelude.{
  ap, sym, ◌≡◌, String, true, false, Option, none, some, arith, inl, inr,
}
use cryostat_operator.Prelude.Dict.{Dict, insert}
use cryostat_operator.Api.Kube.{Kube}
use cryostat_operator.Api.V1beta2.{CryostatStatus}
use cryostat_operator.Api.V1beta2.Options.{PersistentVolumeClaimConfig, StorageConfiguration}
use cryostat_operator.Common.Instance.{CryostatInstance}
use cryostat_operator.Common.Metadata.{Metadata}
use cryostat_operator.Cluster.{Ownership, IsOwnership, Resource, IsLawful}
use cryostat_operator.Cluster.Monad.{ok, Err, and_then-eq-ok, deref, ok_injective, Result-of}
use cryostat_operator.Cluster.Self.{Self}
use cryostat_operator.Controller.VolumeClaims.{
  ClaimSpecs, VolumeClaim, claim_spec, configure_pvc, create_or_update_pvc, is_empty_dir,
  make_claim, mutate_claim, pvc_key, reconcile_pvc, storage_of,
}

deref-eq-ok : {A : Type 0} (o : Option A) {a : A} → deref o ≡ ok a → o ≡ some a
deref-eq-ok none h = absurd cc
deref-eq-ok (some b) h = ap some (ok_injective h)

module _ {K : Kube} {O : Ownership} (Q : ClaimSpecs K) where
  -- A new claim has the specification that is wanted. One that was there keeps its own, in which the
  -- requested storage is set to what is wanted.
  abbrev pub IsSpecFrom :
      Option (VolumeClaim K O) → K.PersistentVolumeClaimSpec → K.PersistentVolumeClaimSpec → Type 0
  IsSpecFrom none wanted spec = spec ≡ wanted
  IsSpecFrom (some old) wanted spec =
      (requested : Dict Q.Quantity) × (Q.requests old.spec ≡ some requested)
      × (spec
          ≡ Q.set_requests old.spec (insert "storage" (storage_of Q (Q.requests wanted)) requested))

  made :
      (config : PersistentVolumeClaimConfig K) (metadata : Metadata) (owners : O.Owners)
      (old : Option K.PersistentVolumeClaimSpec) (wanted : K.PersistentVolumeClaimSpec)
      (claim : VolumeClaim K O)
      → IsOwnership O
      → config.spec ≡ some wanted
      → make_claim Q config metadata owners old ≡ ok claim
      → (O.is_controlled claim.owners ≡ true) × (claim_spec Q old wanted ≡ ok claim.spec)
  unfolding make_claim
  made config metadata owners old wanted claim laws is_wanted h =
      let (controlled, owned, h1) = and_then-eq-ok (O.set_controller owners) _ h in
      let named = laws.set_controller_ok owners controlled owned in
      elim (Result-of (claim_spec Q old wanted)) [
        | inl (claimed, kept) ↦ (ground arith, ground arith)
        | inr (e, failed) ↦ absurd (ground arith)
      ]

  made_claim :
      (config : PersistentVolumeClaimConfig K) (found : Option (VolumeClaim K O))
      (wanted : K.PersistentVolumeClaimSpec) (claim : VolumeClaim K O)
      → IsOwnership O
      → config.spec ≡ some wanted
      → mutate_claim Q config found ≡ ok claim
      → (O.is_controlled claim.owners ≡ true) × IsSpecFrom found wanted claim.spec
  unfolding mutate_claim claim_spec
  made_claim config none wanted claim laws is_wanted h =
      let (controlled, kept) =
        made config (record { labels = none; annotations = none }) O.no_owners none wanted claim
          laws is_wanted h in
      (controlled, sym (ok_injective kept))
  made_claim config (some old) wanted claim laws is_wanted h =
      let (controlled, kept) =
        made config old.metadata old.owners (some old.spec) wanted claim laws is_wanted h in
      let (requested, there, set) = and_then-eq-ok (deref (Q.requests old.spec)) _ kept in
      (controlled, (requested, deref-eq-ok (Q.requests old.spec) there, sym (ok_injective set)))

module _ {K : Kube} {O : Ownership} (Q : ClaimSpecs K) {S : Type 0}
    (V : Resource S (VolumeClaim K O)) (L : IsLawful V) (laws : IsOwnership O)
    (C : Self S (CryostatStatus K)) (error_text : Err → String) where
  -- If the reconciliation of a volume claim succeeds and the user asks for no empty directory, then
  -- the claim is there and has the installation as its controller. Its specification is the
  -- configured one if the claim is new; if it was there, it is the one that it had, with the requested
  -- storage set to the configured.
  pub reconcile_pvc_stored :
      (cr : CryostatInstance K) (cfg : Option (StorageConfiguration K)) (size : Q.Quantity)
      (suffix : String) (wanted : K.PersistentVolumeClaimSpec) (s : S)
      → is_empty_dir Q V C error_text cfg ≡ false
      → (configure_pvc Q cr.name cfg size).spec ≡ some wanted
      → (reconcile_pvc Q V C error_text cr cfg size suffix s).0 ≡ ok tt
      → (claim : VolumeClaim K O) × (V.read
            (reconcile_pvc Q V C error_text cr cfg size suffix s).1
            (pvc_key Q V C error_text cr suffix)
          ≡ some claim)
        × (O.is_controlled claim.owners ≡ true)
        × IsSpecFrom Q (V.read s (pvc_key Q V C error_text cr suffix)) wanted claim.spec
  unfolding reconcile_pvc create_or_update_pvc
  reconcile_pvc_stored cr cfg size suffix wanted s kept is_wanted h =
      let k = pvc_key Q V C error_text cr suffix in
      let config = configure_pvc Q cr.name cfg size in
      let (claim, mutated, stored) =
        L.create_or_update_ok k (mutate_claim Q config) s (ground arith) in
      let (controlled, from) =
        made_claim Q config (V.read s k) wanted claim laws is_wanted mutated in
      (claim, ground arith, controlled, from)
