-- ===== src/Cluster/Delete.antt =====
-- `client.Delete` with a missing object taken for a success, as every deletion of the controllers is.
use cryostat_operator.Prelude.{◌≡◌, ◌⊎◌, inl, inr, false, none, arith, Bool-cases}
use cryostat_operator.Cluster.{Key, same_key, Resource, IsLawful}
use cryostat_operator.Cluster.Monad.{
  Result, ok, err, api, ApiError, not_found, ignore_not_found, is_not_found, Result-cases,
}

-- The result is a success, or an error of the API.
abbrev pub EndsByApi : Result (Unit {0}) → Type 0
EndsByApi r = (r ≡ ok tt) ⊎ ((x : ApiError) × (r ≡ err (api x)))

module _ {S Obj : Type 0} (R : Resource S Obj) (L : IsLawful R) where
  ignored-state : (k : Key) (s : S) → (ignore_not_found (R.delete k) s).1 ≡ (R.delete k s).1
  unfolding ignore_not_found
  ignored-state k s = ground arith

  ignored_ok :
      (k : Key) (s : S)
      → (ignore_not_found (R.delete k) s).0 ≡ ok tt
      → ((R.delete k s).0 ≡ ok tt) ⊎ ((R.delete k s).0 ≡ err (api not_found))
  unfolding ignore_not_found
  ignored_ok k s h = ground arith

  pub ignored_ends : (k : Key) (s : S) → EndsByApi (ignore_not_found (R.delete k) s).0
  unfolding ignore_not_found
  ignored_ends k s = elim (Result-cases (R.delete k s).0) [
    | inl h ↦ inl (ground arith)
    | inr (e, h) ↦
        let (x, is_api) = L.delete_err k s e h in
        elim (Bool-cases (is_not_found e)) [
          | inl gone ↦ inl (ground arith)
          | inr other ↦ inr (x, ground arith)
        ]
  ]

  -- A deletion that returns no error leaves no object.
  pub ignored_gone :
      (k : Key) (s : S)
      → (ignore_not_found (R.delete k) s).0 ≡ ok tt
      → R.read (ignore_not_found (R.delete k) s).1 k ≡ none
  ignored_gone k s h =
      rw (ignored-state k s)
        (elim (ignored_ok k s h) [ inl e ↦ L.delete_ok k s e | inr e ↦ L.delete_not_found k s e ])

  pub ignored_frame :
      (k j : Key) (s : S)
      → same_key k j ≡ false
      → R.read (ignore_not_found (R.delete k) s).1 j ≡ R.read s j
  ignored_frame k j s h = rw (ignored-state k s) (L.delete_frame k j s h)
