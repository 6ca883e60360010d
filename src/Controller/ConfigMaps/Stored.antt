-- ===== src/Controller/ConfigMaps/Stored.antt =====
-- What the cluster holds after the configuration maps are reconciled.
use cryostat_operator.Common.Metadata.{value_of}
use mathlib.Core.Path.{subst}
use cryostat_operator.Prelude.{
  ap, sym, ◌∙◌, ◌≡◌, refl, ◌⊎◌, inl, inr, ℕ, suc, String, true, false, Option, none, some, [], ◌∷◌,
  is_some, if◌then◌else◌, arith, Bool-cases,
}
use cryostat_operator.Prelude.Dict.{lookup, insert}
use cryostat_operator.Api.Kube.{Kube, StringMap}
use cryostat_operator.Common.Instance.{CryostatInstance}
use cryostat_operator.Cluster.{Key, Ownership, IsOwnership, Resource, IsLawful}
use cryostat_operator.Cluster.Delete.{ignored_ends, ignored_gone}
use cryostat_operator.Cluster.Loop.{bind-eq-ok}
use cryostat_operator.Cluster.Monad.{ok, err, Err, lift, Result-of, and_then-eq-ok}
use cryostat_operator.Cluster.Recreate.{create_or_recreate_outcome, EndsIn, IsApiOrOwner}
use cryostat_operator.Controller.ConfigMaps.{
  ConfigMap, is_immutable, is_config_map_immutable_modified, mutate_config_map, delete_config_map,
  recreate_config_map, create_or_update_config_map, agent_proxy_key, dh_data, dh_params,
  oauth2_proxy_key, reconcile_agent_proxy_config, reconcile_oauth2_proxy_config,
}
use cryostat_operator.Controller.ConfigMaps.Contents.{
  TlsConfig, Formats, alpha_config, nginx_params,
}

module _ {O : Ownership} (IsO : IsOwnership O) (contents : StringMap) where
  -- The map has the contents that are wanted, can be changed, and is the installation's.
  abbrev pub IsMap : Option (ConfigMap O) → Type 0
  IsMap found =
      (cm : ConfigMap O) × (found ≡ some cm)
      × (cm.contents ≡ contents)
      × (is_immutable cm ≡ false)
      × (O.is_controlled cm.owners ≡ true)

  mutate_config_map_ok :
      (found : Option (ConfigMap O)) (cm : ConfigMap O)
      → mutate_config_map contents found ≡ ok cm
      → (cm.contents ≡ contents) × (is_immutable cm ≡ false) × (O.is_controlled cm.owners ≡ true)
  unfolding mutate_config_map is_immutable
  mutate_config_map_ok none cm h =
      let (owners, controlled, made) = and_then-eq-ok (O.set_controller O.no_owners) _ h in
      let named = IsO.set_controller_ok O.no_owners owners controlled in ground arith
  mutate_config_map_ok (some old) cm h = elim (Bool-cases (is_immutable old)) [
    | inl frozen ↦ absurd (ground arith)
    | inr plain ↦
        let (owners, controlled, made) =
          and_then-eq-ok (O.set_controller old.owners)
            (λ owners. ok (record old { owners = owners; contents = contents })) {b = cm}
            (ground arith) in
        let named = IsO.set_controller_ok old.owners owners controlled in ground arith
  ]

  new_map_err : (e : Err) → mutate_config_map {O = O} contents none ≡ err e → IsApiOrOwner e
  unfolding mutate_config_map is_immutable
  new_map_err e h = inr (IsO.set_controller_err O.no_owners e (ground arith))

  old_map_err :
      (old : ConfigMap O) (e : Err)
      → mutate_config_map contents (some old) ≡ err e
      → IsApiOrOwner e ⊎ (is_config_map_immutable_modified e ≡ true)
  unfolding mutate_config_map is_immutable
  old_map_err old e h = elim (Bool-cases (is_immutable old)) [
    | inl frozen ↦ inr (ground arith)
    | inr plain ↦ inl (inr (IsO.set_controller_err old.owners e (ground arith)))
  ]

map_error_not_modified : (e : Err) → IsApiOrOwner e → is_config_map_immutable_modified e ≡ false
map_error_not_modified e (inl (x, is_api)) = ground arith
map_error_not_modified e (inr (t, is_owner)) = ground arith

module _ {O : Ownership} {S : Type 0} (V : Resource S (ConfigMap O)) {K : Kube}
    (cr : CryostatInstance K) where
  conf_value :
      (tls : Option TlsConfig) (conf : String)
      → lookup "nginx.conf" (insert "nginx.conf" conf (dh_data V cr tls)) ≡ some conf
  unfolding lookup insert
  conf_value none conf = refl
  conf_value (some config) conf = refl

  dh_value :
      (tls : Option TlsConfig) (conf : String)
      → lookup "dhparam.pem" (insert "nginx.conf" conf (dh_data V cr tls))
        ≡ (if is_some tls then some dh_params else none)
  unfolding lookup insert
  dh_value none conf = refl
  dh_value (some config) conf = refl

module _ {O : Ownership} {S : Type 0} (V : Resource S (ConfigMap O)) (L : IsLawful V)
    (IsO : IsOwnership O) where
  -- With two rounds of fuel `createOrUpdateConfigMap` always ends with a success, an error of the API,
  -- or the error that another controller owns the map, even when the map that is there is immutable.
  -- After a success the map has exactly the contents that are wanted, can be changed, and has the
  -- installation as its controller.
  pub create_or_update_config_map_stored :
      (fuel : ℕ) (k : Key) (contents : StringMap) (s : S)
      → EndsIn IsApiOrOwner (create_or_update_config_map V (suc (suc fuel)) k contents s).0
        × ((create_or_update_config_map V (suc (suc fuel)) k contents s).0 ≡ ok tt
            → IsMap IsO contents
                (V.read (create_or_update_config_map V (suc (suc fuel)) k contents s).1 k))
  unfolding create_or_update_config_map recreate_config_map delete_config_map
  create_or_update_config_map_stored fuel k contents s =
      let (ends, made) =
        create_or_recreate_outcome V is_config_map_immutable_modified (recreate_config_map V k)
          (delete_config_map V k) (λ again t. refl) k (mutate_config_map contents) L IsApiOrOwner
          (λ x. inl (x, refl)) map_error_not_modified (new_map_err IsO contents)
          (old_map_err IsO contents) (ignored_ends V L k) (ignored_gone V L k) fuel s in
      (
        ends,
        λ good.
            let (cm, old, made_of, stored, from) = made good in
            let (same, plain, controlled) = mutate_config_map_ok IsO contents old cm made_of in
            (cm, stored, same, plain, controlled),
      )

  -- After a reconciliation of the agent proxy's map that succeeds, the map holds the execution of the
  -- nginx template for the installation, and the Diffie-Hellman parameters if TLS is set up and only
  -- then; it can be changed and has the installation as its controller.
  pub reconcile_agent_proxy_config_stored :
      {K : Kube} (cr : CryostatInstance K) (F : Formats) (tls : Option TlsConfig) (s : S)
      → (reconcile_agent_proxy_config V cr F tls s).0 ≡ ok tt
      → (conf : String) × (cm : ConfigMap O) × (F.execute
            (nginx_params F cr.name cr.install_namespace tls)
          ≡ ok conf)
        × (V.read (reconcile_agent_proxy_config V cr F tls s).1 (agent_proxy_key cr) ≡ some cm)
        × (value_of "nginx.conf" cm.contents ≡ some conf)
        × (value_of "dhparam.pem" cm.contents ≡ (if is_some tls then some dh_params else none))
        × (is_immutable cm ≡ false)
        × (O.is_controlled cm.owners ≡ true)
  unfolding reconcile_agent_proxy_config
  reconcile_agent_proxy_config_stored cr F tls s h =
      elim (Result-of (F.execute (nginx_params F cr.name cr.install_namespace tls))) [
        | inl (conf, executed) ↦
            let contents = some (insert "nginx.conf" conf (dh_data V cr tls)) in
            let (cm, stored, same, plain, controlled) =
              (create_or_update_config_map_stored 0 (agent_proxy_key cr) contents s).1
                (ground arith) in
            (
              conf,
              cm,
              executed,
              ground arith,
              ap (value_of "nginx.conf") same ∙ conf_value V cr tls conf,
              ap (value_of "dhparam.pem") same ∙ dh_value V cr tls conf,
              plain,
              controlled,
            )
        | inr (e, failed) ↦ absurd (ground arith)
      ]

  -- After a reconciliation of the proxy's map that succeeds where OpenShift is not, the map holds the
  -- encoded configuration.
  pub reconcile_oauth2_proxy_config_stored :
      {K : Kube} (cr : CryostatInstance K) (F : Formats) (tls : Option TlsConfig) (s : S)
      → (reconcile_oauth2_proxy_config V cr F false tls s).0 ≡ ok tt
      → (encoded : String) × (F.marshal (alpha_config F tls) ≡ ok encoded)
        × IsMap IsO
            (some (("alpha_config.json", encoded) ∷ []))
            (V.read (reconcile_oauth2_proxy_config V cr F false tls s).1 (oauth2_proxy_key cr))
  unfolding reconcile_oauth2_proxy_config
  reconcile_oauth2_proxy_config_stored cr F tls s h =
      let (encoded, marshalled, later, same) =
        bind-eq-ok (lift (F.marshal (alpha_config F tls))) _ s h in
      (
        encoded,
        marshalled,
        subst
            (λ t.
              IsMap IsO (some (("alpha_config.json", encoded) ∷ []))
                (V.read t (oauth2_proxy_key cr)))
            (sym same)
            ((create_or_update_config_map_stored 0 (oauth2_proxy_key cr)
                (some (("alpha_config.json", encoded) ∷ [])) s).1
              later),
      )
