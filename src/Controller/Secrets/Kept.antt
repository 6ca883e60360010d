-- ===== src/Controller/Secrets/Kept.antt =====
-- No value of a secret is ever replaced: passwords are generated once.
use mathlib.Core.Path.{subst}
use cryostat_operator.Prelude.{
  ap, sym, ◌∙◌, ◌≡◌, refl, String, Bool, true, false, eq_iff, Option, none, some, [], get_or, arith,
  Bool-cases, inl, inr,
}
use cryostat_operator.Prelude.Dict.{lookup, lookup-insert}
use cryostat_operator.Common.Metadata.{value_of}
use cryostat_operator.Cluster.{same_key-eq, Key, same_key, Ownership, Resource, IsLawful}
use cryostat_operator.Cluster.Monad.{Result, ok, and_then, and_then-eq-ok, ok_injective}
use cryostat_operator.Controller.Secrets.{create_or_update_secret}
use cryostat_operator.Controller.Secrets.Object.{
  with_strings, Secret, Admit, IsAdmission, mutate_secret, fill_cookie, fill_database, fill_storage,
  set_data_if_not_present,
}

module _ {O : Ownership} where
  -- The value that a stored secret holds under a key.
  unfoldable pub stored_value : Option (Secret O) → String → Option String
  stored_value none key = none
  stored_value (some o) key = value_of key o.contents

  -- Whatever value was there is there still.
  abbrev pub Keeps : Option (Secret O) → Option (Secret O) → Type 0
  Keeps before after =
      (key v : String) → stored_value before key ≡ some v → stored_value after key ≡ some v

  -- A delegate that replaces no value of a secret that exists.
  abbrev pub Respects : (Option (Secret O) → Secret O → Result (Secret O)) → Type 0
  Respects delegate =
      (old secret new : Secret O) (key v : String)
      → delegate (some old) secret ≡ ok new
      → secret.string_data ≡ none
      → value_of key secret.contents ≡ some v
      → (new.contents ≡ secret.contents) × (value_of key new.string_data ≡ none)

  pub fill_cookie-Respects : (password : String) → Respects (fill_cookie password)
  unfolding fill_cookie lookup
  fill_cookie-Respects password old secret new key v h unset there = ground arith

  pub fill_database-Respects : (c e : String) → Respects (fill_database c e)
  unfolding fill_database lookup
  fill_database-Respects c e old secret new key v h unset there = ground arith

  set_data_kept :
      (name value : String) (secret : Secret O) (key v : String)
      → value_of key secret.contents ≡ some v
      → value_of key secret.string_data ≡ none
      → ((set_data_if_not_present name value secret).contents ≡ secret.contents)
        × (value_of key (set_data_if_not_present name value secret).string_data ≡ none)
  unfolding set_data_if_not_present
  set_data_kept name value secret key v there unset =
      ground (arith, eq_iff key name, lookup-insert name key value (get_or secret.string_data []))

  pub fill_storage-Respects : (password : String) → Respects (fill_storage password)
  unfolding fill_storage lookup
  fill_storage-Respects password old secret new key v h unset there =
      let s0 = with_strings secret in
      let s1 = set_data_if_not_present "ACCESS_KEY" "cryostat" s0 in
      let (c1, u1) = set_data_kept "ACCESS_KEY" "cryostat" s0 key v there (ground arith) in
      let (c2, u2) =
        set_data_kept "SECRET_KEY" password s1 key v (ap (value_of key) c1 ∙ there) u1 in
      let is_new = ok_injective h in
      (
        ap (λ o. o.contents) (sym is_new) ∙ c2 ∙ c1,
        ap (λ o. value_of key o.string_data) (sym is_new) ∙ u2,
      )

module _ {O : Ownership} {S : Type 0} (V : Resource S (Secret O)) where
  -- `stringData` is not part of what is read.
  abbrev pub ReadsPlain : S → Type 0
  ReadsPlain s = (k : Key) (o : Secret O) → V.read s k ≡ some o → o.string_data ≡ none

  -- A step that replaces no value.
  abbrev pub IsGentle : S → S → Type 0
  IsGentle s t = ReadsPlain t × ((j : Key) → Keeps (V.read s j) (V.read t j))

  pub IsGentle-trans : (s t u : S) → IsGentle s t → IsGentle t u → IsGentle s u
  IsGentle-trans s t u first later =
      (later.0, λ j key v there. later.1 j key v (first.1 j key v there))

  pub IsGentle-same : (s t : S) → V.read t ≡ V.read s → ReadsPlain s → IsGentle s t
  IsGentle-same s t same plain = (
    λ k o stored. plain k o (ap (λ r. r k) (sym same) ∙ stored),
    λ j key v there. ap (λ r. stored_value (r j) key) same ∙ there,
  )

  pub IsGentle-at : (s t u : S) → u ≡ t → IsGentle s t → IsGentle s u
  IsGentle-at s t u same gentle = subst (IsGentle s) (sym same) gentle

module _ {O : Ownership} {S : Type 0} (V : Resource S (Secret O)) (L : IsLawful V) (admit : Admit O)
    (admission : IsAdmission admit) where
  mutated-Respects :
      (owned : Bool) (delegate : Option (Secret O) → Secret O → Result (Secret O))
      (old new : Secret O) (key v : String)
      → Respects delegate
      → mutate_secret owned delegate (some old) ≡ ok new
      → old.string_data ≡ none
      → value_of key old.contents ≡ some v
      → (new.contents ≡ old.contents) × (value_of key new.string_data ≡ none)
  unfolding mutate_secret
  mutated-Respects true delegate old new key v respects h unset there =
      let (owners, controlled, made) = and_then-eq-ok (O.set_controller old.owners) _ h in
      respects old (record old { owners = owners }) new key v made unset there
  mutated-Respects false delegate old new key v respects h unset there =
      respects old old new key v h unset there

  made_keeps :
      (k : Key) (owned : Bool) (delegate : Option (Secret O) → Secret O → Result (Secret O)) (s : S)
      (found : Option (Secret O)) (o : Secret O)
      → Respects delegate
      → ReadsPlain V s
      → V.read s k ≡ found
      → and_then (mutate_secret owned delegate found) (λ m. ok (admit m)) ≡ ok o
      → Keeps found (some o)
  unfolding stored_value
  made_keeps k owned delegate s none o respects plain stored h key v there = absurd cc
  made_keeps k owned delegate s (some old) o respects plain stored h key v there =
      let (m, mutated, admitted) = and_then-eq-ok (mutate_secret owned delegate (some old)) _ h in
      let (same, unset) =
        mutated-Respects owned delegate old m key v respects mutated (plain k old stored) there in
      ap (λ t. value_of key t.contents) (sym (ok_injective admitted))
      ∙ admission.admit_value m key
      ∙ ap (λ t. elim t [ none ↦ value_of key m.contents | some w ↦ some w ]) unset
      ∙ ap (value_of key) same
      ∙ there

  update_keeps :
      (k j : Key) (owned : Bool) (delegate : Option (Secret O) → Secret O → Result (Secret O))
      (s : S)
      → Respects delegate
      → ReadsPlain V s
      → (create_or_update_secret V admit k owned delegate s).0 ≡ ok tt
      → Keeps (V.read s j) (V.read (create_or_update_secret V admit k owned delegate s).1 j)
  unfolding create_or_update_secret
  update_keeps k j owned delegate s respects plain h key v there =
      let (o, made, stored) = L.create_or_update_ok k _ s h in
      elim (Bool-cases (same_key k j)) [
        | inl same ↦
            let e = same_key-eq k j same in
            let before = ap (λ i. stored_value (V.read s i) key) e ∙ there in
            let t = (create_or_update_secret V admit k owned delegate s).1 in
            ap (λ i. stored_value (V.read t i) key) (sym e)
            ∙ ap (λ r. stored_value r key) stored
            ∙ made_keeps k owned delegate s (V.read s k) o respects plain refl made key v before
        | inr other ↦ ap (λ r. stored_value r key) (L.create_or_update_frame k j _ s other) ∙ there
      ]

  update_plain :
      (k : Key) (owned : Bool) (delegate : Option (Secret O) → Secret O → Result (Secret O)) (s : S)
      → ReadsPlain V s
      → (create_or_update_secret V admit k owned delegate s).0 ≡ ok tt
      → ReadsPlain V (create_or_update_secret V admit k owned delegate s).1
  unfolding create_or_update_secret
  update_plain k owned delegate s plain h j read found =
      let (o, made, stored) = L.create_or_update_ok k _ s h in
      let (m, mutated, admitted) =
        and_then-eq-ok (mutate_secret owned delegate (V.read s k)) _ made in
      let t = (create_or_update_secret V admit k owned delegate s).1 in
      elim (Bool-cases (same_key k j)) [
        | inl same ↦
            let again : some o ≡ some read =
              sym stored ∙ ap (V.read t) (same_key-eq k j same) ∙ found in
            ap (λ x. (get_or x read).string_data) (sym again)
            ∙ ap (λ x. x.string_data) (sym (ok_injective admitted))
            ∙ admission.admit_string_data m
        | inr other ↦ plain j read (sym (L.create_or_update_frame k j _ s other) ∙ found)
      ]

  pub update-IsGentle :
      (k : Key) (owned : Bool) (delegate : Option (Secret O) → Secret O → Result (Secret O)) (s : S)
      → Respects delegate
      → ReadsPlain V s
      → (create_or_update_secret V admit k owned delegate s).0 ≡ ok tt
      → IsGentle V s (create_or_update_secret V admit k owned delegate s).1
  update-IsGentle k owned delegate s respects plain h = (
    update_plain k owned delegate s plain h,
    λ j. update_keeps k j owned delegate s respects plain h,
  )
