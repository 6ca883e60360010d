-- ===== src/Controller/Secrets/All.antt =====
-- No reconciliation of the secrets replaces a value of a secret.
use cryostat_operator.Prelude.{
  ◌∙◌, ◌≡◌, refl, String, true, some, is_some, arith, Bool-cases, inl, inr,
}
use cryostat_operator.Api.Kube.{Kube}
use cryostat_operator.Api.V1beta2.{CryostatStatus}
use cryostat_operator.Common.Instance.{CryostatInstance}
use cryostat_operator.Cluster.{Key, Ownership, Resource, IsLawful}
use cryostat_operator.Cluster.Loop.{bind-eq-ok}
use cryostat_operator.Cluster.Monad.{ok, M, ◌>>=◌}
use cryostat_operator.Cluster.Self.{Self, IsBeside}
use cryostat_operator.Controller.Secrets.{
  cookie_key, create_database_secret, create_or_update_secret, database_key,
  database_secret_mismatch, database_secret_name, Passwords, provided_secret,
  reconcile_auth_proxy_cookie_secret, reconcile_database_connection_secret, reconcile_secrets,
  reconcile_storage_secret, save, storage_key,
}
use cryostat_operator.Controller.Secrets.Kept.{
  fill_cookie-Respects, fill_database-Respects, fill_storage-Respects, IsGentle, IsGentle-at,
  IsGentle-same, IsGentle-trans, ReadsPlain, stored_value, update-IsGentle,
}
use cryostat_operator.Controller.Secrets.Object.{
  Secret, Admit, IsAdmission, fill_cookie, fill_database, fill_storage,
}

module _ {O : Ownership} {S : Type 0} (V : Resource S (Secret O)) (L : IsLawful V) (admit : Admit O)
    (admission : IsAdmission admit) {K : Kube} (C : Self S (CryostatStatus K))
    (beside : IsBeside V.read C) (passwords : Passwords) where
  save_keeps :
      (cr : CryostatInstance K) (st : CryostatStatus K) (s : S)
      → V.read (save V admit C passwords cr st s).1 ≡ V.read s
  save_keeps cr st s = ground (arith, beside.status_keeps st s)

  saved-IsGentle :
      (update : M S (Unit {0})) (cr : CryostatInstance K) (st : CryostatStatus K) (s : S)
      (done : CryostatInstance K)
      → ((update s).0 ≡ ok tt → IsGentle V s (update s).1)
      → ((update >>= λ _. save V admit C passwords cr st) s).0 ≡ ok done
      → IsGentle V s ((update >>= λ _. save V admit C passwords cr st) s).1
  saved-IsGentle update cr st s done gentle h =
      let (u, first, later, same) =
        bind-eq-ok update (λ _. save V admit C passwords cr st) s {b = done} h in
      let step = gentle (ground arith) in
      IsGentle-at V s _ _ same (
        IsGentle-trans V s (update s).1 _ step
          (IsGentle-same V (update s).1 _ (save_keeps cr st (update s).1) step.0))

  storage-IsGentle :
      (cr : CryostatInstance K) (s : S) (done : CryostatInstance K)
      → ReadsPlain V s
      → (reconcile_storage_secret V admit C passwords cr s).0 ≡ ok done
      → IsGentle V s (reconcile_storage_secret V admit C passwords cr s).1
  unfolding reconcile_storage_secret
  storage-IsGentle cr s done plain h =
      saved-IsGentle
        (create_or_update_secret V admit (storage_key cr) true (fill_storage passwords.storage)) cr
        (record cr.status { storage_secret = (storage_key cr).name }) s done
        (update-IsGentle V L admit admission (storage_key cr) true (fill_storage passwords.storage)
          s (fill_storage-Respects passwords.storage) plain)
        h

  create-IsGentle :
      (cr : CryostatInstance K) (s : S)
      → ReadsPlain V s
      → (create_database_secret V admit C passwords cr s).0 ≡ ok tt
      → IsGentle V s (create_database_secret V admit C passwords cr s).1
  unfolding create_database_secret
  create-IsGentle cr s plain h = elim (Bool-cases (is_some (provided_secret cr))) [
    | inl provided ↦ rw provided (IsGentle-same V s s refl plain)
    | inr own ↦ rw own (
        update-IsGentle V L admit admission (database_key cr) true
          (fill_database passwords.connection passwords.encryption) s
          (fill_database-Respects passwords.connection passwords.encryption) plain (ground arith))
  ]

  database-IsGentle :
      (cr : CryostatInstance K) (s : S) (done : CryostatInstance K)
      → ReadsPlain V s
      → (reconcile_database_connection_secret V admit C passwords cr s).0 ≡ ok done
      → IsGentle V s (reconcile_database_connection_secret V admit C passwords cr s).1
  unfolding reconcile_database_connection_secret
  database-IsGentle cr s done plain h = elim (Bool-cases (database_secret_mismatch cr)) [
    | inl mismatch ↦ absurd (ground arith)
    | inr matching ↦ rw matching (
        saved-IsGentle (create_database_secret V admit C passwords cr) cr
          (record cr.status { database_secret = database_secret_name cr }) s done
          (create-IsGentle cr s plain) (ground arith))
  ]

  -- A reconciliation of the secrets that succeeds replaces no value of any secret in the cluster,
  -- whatever the specification says: what a secret held under a key before, it holds after. What is
  -- read before and after has no `stringData`.
  pub reconcile_secrets_keeps :
      (cr : CryostatInstance K) (s : S) (done : CryostatInstance K)
      → ReadsPlain V s
      → (reconcile_secrets V admit C passwords cr s).0 ≡ ok done
      → ReadsPlain V (reconcile_secrets V admit C passwords cr s).1
        × ((j : Key) (key v : String)
            → stored_value (V.read s j) key ≡ some v
            → stored_value (V.read (reconcile_secrets V admit C passwords cr s).1 j) key ≡ some v)
  unfolding reconcile_secrets reconcile_auth_proxy_cookie_secret
  reconcile_secrets_keeps cr s done plain h =
      let cookie = reconcile_auth_proxy_cookie_secret V admit C passwords cr in
      let database = reconcile_database_connection_secret V admit C passwords cr in
      let storage = reconcile_storage_secret V admit C passwords in
      let (u, h1, later, same) = bind-eq-ok cookie (λ _. database >>= storage) s {b = done} h in
      let s1 = (cookie s).1 in
      let (mid, h2, h3, same2) = bind-eq-ok database storage s1 {b = done} later in
      let first =
        update-IsGentle V L admit admission (cookie_key cr) true (fill_cookie passwords.cookie) s
          (fill_cookie-Respects passwords.cookie) plain (ground arith) in
      let second = database-IsGentle cr s1 mid first.0 h2 in
      IsGentle-at V s _ _ (same ∙ same2) (
        IsGentle-trans V s (database s1).1 _ (IsGentle-trans V s s1 _ first second)
          (storage-IsGentle mid (database s1).1 done second.0 h3))
