-- ===== src/Cluster/Recreate.antt =====
-- Objects with a part that cannot be changed: `createOrUpdate…` is given an error of its mutate
-- function that says so, and deletes the object and creates it anew.
use mathlib.Core.Path.{subst}
use cryostat_operator.Prelude.{
  ap, ◌≢◌, sym, ◌∙◌, ◌≡◌, refl, ◌⊎◌, inl, inr, String, ℕ, zero, suc, Bool, true, false, Option,
  none, some, arith, if◌then◌else◌,
}
use cryostat_operator.Cluster.{Key, Resource, IsLawful}
use cryostat_operator.Cluster.Delete.{EndsByApi}
use cryostat_operator.Cluster.Monad.{
  Result, ok, err, Err, api, ApiError, out_of_fuel, failure, M, raise, ◌>>◌, catch, Result-cases,
  then_do,
}

-- The fuel bounds how often the object is created anew; `recreate` is given the call itself.
unfoldable pub create_or_recreate :
    {S Obj : Type 0}
    → Resource S Obj
    → (Err → Bool)
    → (M S (Unit {0}) → M S (Unit {0}))
    → ℕ
    → Key
    → (Option Obj → Result Obj)
    → M S (Unit {0})
create_or_recreate R is_modified recreate zero k f = raise out_of_fuel
create_or_recreate R is_modified recreate (suc fuel) k f =
    let again = create_or_recreate R is_modified recreate fuel k f in
    catch (R.create_or_update k f) λ e. if is_modified e then recreate again else raise e

-- The result is a success, or one of the errors `P`.
abbrev pub EndsIn : (Err → Type 0) → Result (Unit {0}) → Type 0
EndsIn P r = (r ≡ ok tt) ⊎ ((e : Err) × (r ≡ err e) × P e)

abbrev pub IsApi : Err → Type 0
IsApi e = (x : ApiError) × (e ≡ api x)

-- Or the error of another controller that owns the object.
abbrev pub IsApiOrOwner : Err → Type 0
IsApiOrOwner e = IsApi e ⊎ ((t : String) × (e ≡ failure t))

pub ends_by_api : {r : Result (Unit {0})} → EndsIn IsApi r → EndsByApi r
ends_by_api (inl good) = inl good
ends_by_api (inr (e, failed, (x, is_api))) = inr (x, failed ∙ ap err is_api)

module _ {S Obj : Type 0} (R : Resource S Obj) (is_modified : Err → Bool)
    (recreate : M S (Unit {0}) → M S (Unit {0})) (remove : M S (Unit {0}))
    (recreate_is : (again : M S (Unit {0})) (s : S) → recreate again s ≡ (remove >> again) s) where
  module _ (k : Key) (f : Option Obj → Result Obj) where
    abbrev run : ℕ → M S (Unit {0})
    run fuel = create_or_recreate R is_modified recreate fuel k f

    run_ok :
        (fuel : ℕ) (s : S)
        → (R.create_or_update k f s).0 ≡ ok tt
        → run (suc fuel) s ≡ R.create_or_update k f s
    unfolding create_or_recreate
    run_ok fuel s h = ground arith

    run_err :
        (fuel : ℕ) (s : S) (e : Err)
        → (R.create_or_update k f s).0 ≡ err e
        → is_modified e ≡ false
        → run (suc fuel) s ≡ R.create_or_update k f s
    unfolding create_or_recreate
    run_err fuel s e h plain = ground arith

    run_modified :
        (fuel : ℕ) (s : S) (e : Err)
        → (R.create_or_update k f s).0 ≡ err e
        → is_modified e ≡ true
        → run (suc fuel) s ≡ recreate (run fuel) (R.create_or_update k f s).1
    unfolding create_or_recreate
    run_modified fuel s e h modified = ground arith

    -- What neither the call nor the deletion changes, the whole does not change, however it ends.
    pub create_or_recreate_keeps :
        {X : Type 0} (view : S → X)
        (update_keeps : (s : S) → view (R.create_or_update k f s).1 ≡ view s)
        (remove_keeps : (s : S) → view (remove s).1 ≡ view s) (fuel : ℕ) (s : S)
        → view (run fuel s).1 ≡ view s
    unfolding create_or_recreate
    create_or_recreate_keeps view update_keeps remove_keeps zero s = refl
    create_or_recreate_keeps view update_keeps remove_keeps (suc fuel) s = ground (
      arith,
      update_keeps s,
      recreate_is (run fuel) (R.create_or_update k f s).1,
      remove_keeps (R.create_or_update k f s).1,
      create_or_recreate_keeps view update_keeps remove_keeps fuel
          (remove (R.create_or_update k f s).1).1,
    )

    module _ (L : IsLawful R) (P : Err → Type 0) (P-api : (x : ApiError) → P (api x))
        (P-not_modified : (e : Err) → P e → is_modified e ≡ false)
        (new_err : (e : Err) → f none ≡ err e → P e)
        (old_err : (o : Obj) (e : Err) → f (some o) ≡ err e → P e ⊎ (is_modified e ≡ true))
        (remove_ends : (s : S) → EndsByApi (remove s).0)
        (remove_gone : (s : S) → (remove s).0 ≡ ok tt → R.read (remove s).1 k ≡ none) where
      call_err :
          (s : S) (e : Err) (old : Option Obj)
          → R.read s k ≡ old
          → (R.create_or_update k f s).0 ≡ err e
          → P e ⊎ ((is_modified e ≡ true) × (old ≢ none))
      call_err s e old stored h = elim (L.create_or_update_err k f s e h) [
        | inl (x, is_api) ↦ inl (subst P (sym is_api) (P-api x))
        | inr refused ↦ from_mutate old (sym (ap f stored) ∙ refused)
      ]
        where
          from_mutate :
              (old : Option Obj) → f old ≡ err e → P e ⊎ ((is_modified e ≡ true) × (old ≢ none))
          from_mutate none refused = inl (new_err e refused)
          from_mutate (some o) refused = elim (old_err o e refused) [
            | inl allowed ↦ inl allowed
            | inr modified ↦ inr (modified, λ c. cc)
          ]

      -- The server holds what the mutate function makes of what it held, or of nothing.
      abbrev MadeFrom : Option Obj → Option Obj → Type 0
      MadeFrom before after =
          (o : Obj) × (old : Option Obj) × (f old ≡ ok o)
          × (after ≡ some o)
          × ((old ≡ before) ⊎ (old ≡ none))

      abbrev Settles : Option Obj → Result (Unit {0}) × S → Type 0
      Settles before r = EndsIn P r.0 × (r.0 ≡ ok tt → MadeFrom before (R.read r.1 k))

      round_ok :
          (s : S)
          → (R.create_or_update k f s).0 ≡ ok tt
          → Settles (R.read s k) (R.create_or_update k f s)
      round_ok s h = (
        inl h,
        λ good.
            let (o, made, stored) = L.create_or_update_ok k f s h in
            (o, R.read s k, made, stored, inl refl),
      )

      round_err :
          {before : Option Obj} (s : S) (e : Err)
          → P e
          → (R.create_or_update k f s).0 ≡ err e
          → Settles before (R.create_or_update k f s)
      round_err s e allowed h = (inr (e, h, allowed), λ good. cc)

      weaken : {before : Option Obj} (r : Result (Unit {0}) × S) → Settles none r → Settles before r
      weaken r (ends, made) = (
        ends,
        λ good.
            let (o, old, made_of, stored, from) = made good in
            (o, old, made_of, stored, inr (elim from [ inl a ↦ a | inr b ↦ b ])),
      )

      round_new : (fuel : ℕ) (s : S) → R.read s k ≡ none → Settles none (run (suc fuel) s)
      round_new fuel s missing = elim (Result-cases (R.create_or_update k f s).0) [
        | inl h ↦
            subst (Settles none) (sym (run_ok fuel s h))
              (subst (λ b. Settles b (R.create_or_update k f s)) missing (round_ok s h))
        | inr (e, h) ↦ elim (call_err s e none missing h) [
          | inl allowed ↦
              subst (Settles none) (sym (run_err fuel s e h (P-not_modified e allowed)))
                (round_err s e allowed h)
          | inr (modified, found) ↦ absurd (found refl)
        ]
      ]

      after_deletion :
          (r : Result (Unit {0}) × S) (again : M S (Unit {0}))
          → EndsByApi r.0
          → (r.0 ≡ ok tt → Settles none (again r.1))
          → Settles none (then_do r (λ _. again))
      after_deletion (ok a, s) again ends go = go refl
      after_deletion (err e, s) again ends go =
          (elim ends [ inl c ↦ absurd cc | inr (x, h) ↦ inr (api x, h, P-api x) ], λ good. cc)

      round_recreated : (fuel : ℕ) (s : S) → Settles none (recreate (run (suc fuel)) s)
      round_recreated fuel s = rw (recreate_is (run (suc fuel)) s) (
          after_deletion (remove s) _ (remove_ends s)
            λ deleted. round_new fuel (remove s).1 (remove_gone s deleted))

      -- With two rounds of fuel the call always ends: it succeeds, or it returns one of the errors
      -- `P`, never that the object was modified.
      pub create_or_recreate_outcome :
          (fuel : ℕ) (s : S) → Settles (R.read s k) (run (suc (suc fuel)) s)
      create_or_recreate_outcome fuel s = elim (Result-cases (R.create_or_update k f s).0) [
        | inl h ↦ subst (Settles (R.read s k)) (sym (run_ok (suc fuel) s h)) (round_ok s h)
        | inr (e, h) ↦ elim (call_err s e (R.read s k) refl h) [
          | inl allowed ↦
              subst (Settles (R.read s k))
                (sym (run_err (suc fuel) s e h (P-not_modified e allowed)))
                (round_err s e allowed h)
          | inr (modified, found) ↦
              subst (Settles (R.read s k)) (sym (run_modified (suc fuel) s e h modified))
                (weaken _ (round_recreated fuel (R.create_or_update k f s).1))
        ]
      ]
