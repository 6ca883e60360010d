-- ===== src/Controller/Hashes/Outcome.antt =====
-- How the annotation with hashes can end: it changes nothing in the cluster.
use cryostat_operator.Prelude.{
  ◌≡◌, refl, ap, ◌∙◌, sym, ◌⊎◌, inl, inr, String, List, [], ◌∷◌, ◌<>◌, arith,
}
use cryostat_operator.Common.Metadata.{Metadata}
use cryostat_operator.Cluster.{Key, Getter}
use cryostat_operator.Cluster.Monad.{failure, Result, err, Err, M, pure, lift, ◌>>=◌, Result-of}
use cryostat_operator.Cluster.Recreate.{IsApi}
use cryostat_operator.Controller.Hashes.{
  references, to_sorted_slice, with_hashes, HashCalls, Container, Volume, combine_json,
  hash_secrets, hash_config_maps, annotate_with_obj_ref_hashes,
}

-- A read changes nothing, and its errors are the API's.
pub record IsReading {S Data : Type 0} (get : Getter S Data) : Type 0 where
  pub get_keeps : (k : Key) (s : S) → (get k s).1 ≡ s
  pub get_err : (k : Key) (s : S) (e : Err) → (get k s).0 ≡ err e → IsApi e

pub record IsHashCalls {S : Type 0} (C : HashCalls S) : Type 0 where
  pub secrets_read : IsReading C.get_secret
  pub config_maps_read : IsReading C.get_config_map
  -- The errors of `json.Marshal` are its own.
  pub marshal_secret_err :
      (d : C.SecretData) (e : Err) → C.marshal_secret d ≡ err e → (t : String) × (e ≡ failure t)
  pub marshal_config_map_err :
      (d : C.ConfigMapData) (e : Err)
      → C.marshal_config_map d ≡ err e
      → (t : String) × (e ≡ failure t)

-- The error is one of the API's, or one of the encoding as JSON.
abbrev pub IsHashError : {S : Type 0} → HashCalls S → Err → Type 0
IsHashError C e =
    IsApi e
    ⊎ ((((d : C.SecretData) × (C.marshal_secret d ≡ err e))
          ⊎ ((d : C.ConfigMapData) × (C.marshal_config_map d ≡ err e)))
        × ((t : String) × (e ≡ failure t)))

module _ {S : Type 0} where
  -- A computation that changes nothing and whose errors are of a kind.
  abbrev IsQuery : {A : Type 0} → (Err → Type 0) → M S A → Type 0
  IsQuery E m = (s : S) → ((m s).1 ≡ s) × ((e : Err) → (m s).0 ≡ err e → E e)

  bind-IsQuery :
      {A B : Type 0} (E : Err → Type 0) (m : M S A) (f : A → M S B)
      → IsQuery E m
      → ((a : A) → IsQuery E (f a))
      → IsQuery E (m >>= f)
  bind-IsQuery E m f first then s =
      let (same, fails) = first s in
      elim (Result-of (m s).0) [
        | inl (a, h) ↦
            let (same2, fails2) = then a (m s).1 in
            let run : (m >>= f) s ≡ f a (m s).1 = ground arith in
            (ap (λ r. r.1) run ∙ same2 ∙ same, λ e g. fails2 e (sym (ap (λ r. r.0) run) ∙ g))
        | inr (x, h) ↦ (ground arith, λ e g. fails e (ground arith))
      ]

  combine_json-IsQuery :
      {Data : Type 0} (E : Err → Type 0) (get : Getter S Data) (marshal : Data → Result String)
      (namespace : String) (names : List String) (combined : String)
      → ((k : Key) → IsQuery E (get k))
      → ((d : Data) (e : Err) → marshal d ≡ err e → E e)
      → IsQuery E (combine_json get marshal namespace names combined)
  unfolding combine_json
  combine_json-IsQuery E get marshal namespace [] combined reads fails s =
      (refl, λ e h. absurd (ground arith))
  combine_json-IsQuery E get marshal namespace (name ∷ rest) combined reads fails s =
      (bind-IsQuery E (get _) _ (reads _) λ d.
          bind-IsQuery E (lift (marshal d)) _ (λ s. (refl, λ e h. fails d e h))
            λ buf. combine_json-IsQuery E get marshal namespace rest (combined <> buf) reads fails)
        s

  pure-IsQuery : {A : Type 0} (E : Err → Type 0) (a : A) → IsQuery E (pure a)
  pure-IsQuery E a s = (refl, λ e h. absurd (ground arith))

  reading-IsQuery :
      {Data : Type 0} (E : Err → Type 0) (get : Getter S Data)
      → IsReading get
      → ((e : Err) → IsApi e → E e)
      → (k : Key) → IsQuery E (get k)
  reading-IsQuery E get reads api_error k s =
      (reads.get_keeps k s, λ e h. api_error e (reads.get_err k s e h))

  map-IsQuery :
      {A B : Type 0} (E : Err → Type 0) (m : M S A) (f : A → B)
      → IsQuery E m
      → IsQuery E (m >>= λ a. pure (f a))
  map-IsQuery E m f query = bind-IsQuery E m (λ a. pure (f a)) query λ a. pure-IsQuery E (f a)

  module _ (C : HashCalls S) (laws : IsHashCalls C) (namespace : String) where
    hash_secrets-IsQuery :
        (names : List String) → IsQuery (IsHashError C) (hash_secrets C namespace names)
    unfolding hash_secrets
    hash_secrets-IsQuery names =
        map-IsQuery (IsHashError C)
          (combine_json C.get_secret C.marshal_secret namespace (to_sorted_slice names) "")
          C.checksums.sha256
          (combine_json-IsQuery (IsHashError C) C.get_secret C.marshal_secret namespace
            (to_sorted_slice names) ""
            (reading-IsQuery (IsHashError C) C.get_secret laws.secrets_read (λ e h. inl h))
            (λ d e h. inr (inl (d, h), laws.marshal_secret_err d e h)))

    hash_config_maps-IsQuery :
        (names : List String) → IsQuery (IsHashError C) (hash_config_maps C namespace names)
    unfolding hash_config_maps
    hash_config_maps-IsQuery names =
        map-IsQuery (IsHashError C)
          (combine_json C.get_config_map C.marshal_config_map namespace (to_sorted_slice names) "")
          C.checksums.fnv128
          (combine_json-IsQuery (IsHashError C) C.get_config_map C.marshal_config_map namespace
            (to_sorted_slice names) ""
            (reading-IsQuery (IsHashError C) C.get_config_map laws.config_maps_read (λ e h. inl h))
            (λ d e h. inr (inr (d, h), laws.marshal_config_map_err d e h)))

    pub annotate-IsQuery :
        (containers : List Container) (volumes : List Volume) (template : Metadata) (s : S)
        → ((annotate_with_obj_ref_hashes C namespace containers volumes template s).1 ≡ s)
          × ((e : Err)
              → (annotate_with_obj_ref_hashes C namespace containers volumes template s).0 ≡ err e
              → IsHashError C e)
    unfolding annotate_with_obj_ref_hashes
    annotate-IsQuery containers volumes template =
        let refs = references containers volumes in
        bind-IsQuery (IsHashError C) (hash_secrets C namespace refs.secrets)
          (λ secret_hash. hash_config_maps C namespace refs.config_maps >>= λ config_map_hash.
            pure (with_hashes template secret_hash config_map_hash))
          (hash_secrets-IsQuery refs.secrets)
          λ secret_hash.
            map-IsQuery (IsHashError C) (hash_config_maps C namespace refs.config_maps)
              (with_hashes template secret_hash) (hash_config_maps-IsQuery refs.config_maps)
