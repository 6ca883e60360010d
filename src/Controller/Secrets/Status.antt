-- ===== src/Controller/Secrets/Status.antt =====
-- What the status records of the secrets, and what happens when the user names another database
-- secret.
use cryostat_operator.Prelude.{
  ap, sym, ◌∙◌, ◌≡◌, ◌⊎◌, inl, inr, true, false, ◌==◌, ◌<>◌, eq_iff, arith, Bool-cases,
}
use cryostat_operator.Api.Kube.{Kube}
use cryostat_operator.Api.V1beta2.{CryostatStatus}
use cryostat_operator.Common.Instance.{CryostatInstance}
use cryostat_operator.Cluster.{Key, same_key, Ownership, Resource, IsLawful}
use cryostat_operator.Cluster.Apart.{IsApart}
use cryostat_operator.Cluster.Loop.{bind-eq-ok}
use cryostat_operator.Cluster.Monad.{
  and_then, ok, err, ok_injective, database_secret_updated, pure, ◌>>=◌,
}
use cryostat_operator.Cluster.Self.{Self, IsSelf, IsBeside}
use cryostat_operator.Controller.Secrets.{
  mutate_secret, mismatch_event, fill_cookie, database_secret_mismatch, database_secret_name,
  create_or_update_secret, cookie_key, Passwords, save, with_status, storage_key,
  create_database_secret, reconcile_secrets, reconcile_auth_proxy_cookie_secret,
  reconcile_database_connection_secret, reconcile_storage_secret,
}
use cryostat_operator.Controller.Secrets.Object.{Secret, Admit, fill_storage}

module _ {O : Ownership} {S : Type 0} (V : Resource S (Secret O)) (admit : Admit O) {K : Kube}
    (C : Self S (CryostatStatus K)) (passwords : Passwords) where
  save_ok :
      (cr : CryostatInstance K) (st : CryostatStatus K) (s : S) {done : CryostatInstance K}
      → IsSelf C
      → (save V admit C passwords cr st s).0 ≡ ok done
      → (done ≡ with_status cr st) × (C.read_status (save V admit C passwords cr st s).1 ≡ st)
  save_ok cr st s {done} laws h =
      let (u, updated, last, same) =
        bind-eq-ok (C.update_status st) (λ _. pure (with_status cr st)) s {b = done} h in
      (sym (ok_injective last), ap C.read_status same ∙ laws.update_status_ok st s (ground arith))

  matched :
      (cr : CryostatInstance K)
      → database_secret_mismatch cr ≡ false
      → (cr.status.database_secret ≡ "") ⊎ (cr.status.database_secret ≡ database_secret_name cr)
  unfolding database_secret_mismatch
  matched cr h = ground (
    arith,
    eq_iff cr.status.database_secret "",
    eq_iff cr.status.database_secret (database_secret_name cr),
  )

  database_ok :
      (cr : CryostatInstance K) (s : S) {done : CryostatInstance K}
      → IsSelf C
      → (reconcile_database_connection_secret V admit C passwords cr s).0 ≡ ok done
      → (done ≡ with_status cr (record cr.status { database_secret = database_secret_name cr }))
        × (database_secret_mismatch cr ≡ false)
  unfolding reconcile_database_connection_secret
  database_ok cr s {done} laws h = elim (Bool-cases (database_secret_mismatch cr)) [
    | inl mismatch ↦ absurd (ground arith)
    | inr matching ↦
        let st = record cr.status { database_secret = database_secret_name cr } in
        let create = create_database_secret V admit C passwords cr in
        let (u, first, later, same) =
          bind-eq-ok create (λ _. save V admit C passwords cr st) s {b = done} (ground arith) in
        ((save_ok cr st (create s).1 laws later).0, matching)
  ]

  storage_ok :
      (cr : CryostatInstance K) (s : S) {done : CryostatInstance K}
      → IsSelf C
      → (reconcile_storage_secret V admit C passwords cr s).0 ≡ ok done
      → (done ≡ with_status cr (record cr.status { storage_secret = cr.name <> "-storage" }))
        × (C.read_status (reconcile_storage_secret V admit C passwords cr s).1 ≡ done.status)
  unfolding reconcile_storage_secret
  storage_ok cr s {done} laws h =
      let st = record cr.status { storage_secret = (storage_key cr).name } in
      let update =
        create_or_update_secret V admit (storage_key cr) true (fill_storage passwords.storage) in
      let (u, first, later, same) =
        bind-eq-ok update (λ _. save V admit C passwords cr st) s {b = done} h in
      let (is_done, stored) = save_ok cr st (update s).1 laws later in
      (is_done, ap C.read_status same ∙ stored ∙ ap (λ d. d.status) (sym is_done))

  -- If the reconciliation of the secrets succeeds, the instance's status and the one that the API
  -- server holds name the database secret of the specification and the storage secret, and the
  -- database secret that the status named before, if it named one, is the same.
  pub reconcile_secrets_status :
      (cr : CryostatInstance K) (s : S) (done : CryostatInstance K) (laws : IsSelf C)
      → (reconcile_secrets V admit C passwords cr s).0 ≡ ok done
      → (C.read_status (reconcile_secrets V admit C passwords cr s).1 ≡ done.status)
        × (done.status.database_secret ≡ database_secret_name cr)
        × (done.status.storage_secret ≡ cr.name <> "-storage")
        × ((cr.status.database_secret ≡ "")
            ⊎ (cr.status.database_secret ≡ done.status.database_secret))
  unfolding reconcile_secrets
  reconcile_secrets_status cr s done laws h =
      let cookie = reconcile_auth_proxy_cookie_secret V admit C passwords cr in
      let database = reconcile_database_connection_secret V admit C passwords cr in
      let storage = reconcile_storage_secret V admit C passwords in
      let (u, h1, later, same) = bind-eq-ok cookie (λ _. database >>= storage) s {b = done} h in
      let (mid, h2, h3, same2) = bind-eq-ok database storage (cookie s).1 {b = done} later in
      let (is_mid, matching) = database_ok cr (cookie s).1 laws h2 in
      let (is_done, stored) = storage_ok mid (database (cookie s).1).1 laws h3 in
      let named : done.status.database_secret ≡ database_secret_name cr =
        ap (λ d. d.status.database_secret) is_done ∙ ap (λ d. d.status.database_secret) is_mid in
      (
        ap C.read_status (same ∙ same2) ∙ stored,
        named,
        ap (λ d. d.status.storage_secret) is_done ∙ ap (λ d. d.name <> "-storage") is_mid,
        elim (matched cr matching) [ inl unset ↦ inl unset | inr kept ↦ inr (kept ∙ sym named) ],
      )

  -- If the status names a database secret and the specification asks for another, then a
  -- reconciliation in which the cookie's secret has succeeded ends with the error that the secret
  -- cannot be updated, the status is not changed, and neither is any secret but the cookie's.
  pub reconcile_secrets_mismatch :
      (cr : CryostatInstance K) (s : S) (j : Key) (laws : IsSelf C) (L : IsLawful V)
      (beside : IsBeside V.read C) (cookie_beside : IsApart C.read_status V)
      → (cr.status.database_secret == "") ≡ false
      → (cr.status.database_secret == database_secret_name cr) ≡ false
      → (reconcile_auth_proxy_cookie_secret V admit C passwords cr s).0 ≡ ok tt
      → same_key (cookie_key cr) j ≡ false
      → ((reconcile_secrets V admit C passwords cr s).0 ≡ err database_secret_updated)
        × (C.read_status (reconcile_secrets V admit C passwords cr s).1 ≡ C.read_status s)
        × (V.read (reconcile_secrets V admit C passwords cr s).1 j ≡ V.read s j)
  unfolding reconcile_secrets reconcile_database_connection_secret database_secret_mismatch
      reconcile_auth_proxy_cookie_secret create_or_update_secret
  reconcile_secrets_mismatch cr s j laws L beside apart named differs first other =
      let update = fill_cookie passwords.cookie in
      let s1 = (create_or_update_secret V admit (cookie_key cr) true update s).1 in
      ground (
        arith,
        laws.warn_status mismatch_event s1,
        beside.warn_keeps mismatch_event s1,
        apart.update_keeps (cookie_key cr)
            (λ found. and_then (mutate_secret true update found) λ o. ok (admit o)) s,
        L.create_or_update_frame (cookie_key cr) j
            (λ found. and_then (mutate_secret true update found) λ o. ok (admit o)) s other,
      )
