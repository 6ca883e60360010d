-- ===== src/Cluster/Memory.antt =====
-- A cluster that holds the objects of one kind in a list, never fails, and obeys the laws.
use cryostat_operator.Prelude.{
  ◌≡◌, refl, true, false, eq_iff, Option, none, some, List, [], ◌∷◌, if◌then◌else◌, arith, inr,
}
use cryostat_operator.Cluster.Monad.{Result, ok, err, api, not_found, Err, ApiError}
use cryostat_operator.Cluster.{Key, same_key, Resource, IsLawful, Getter, IsFaithful}

abbrev pub Objects : Type 0 → Type 0
Objects Obj = List (Key × Obj)

same_key_refl : (k : Key) → same_key k k ≡ true
same_key_refl k = ground (arith, eq_iff k.name k.name, eq_iff k.namespace k.namespace)

module _ {Obj : Type 0} where
  find : Objects Obj → Key → Option Obj
  find [] k = none
  find ((j, o) ∷ rest) k = if same_key j k then some o else find rest k

  put : Key → Obj → Objects Obj → Objects Obj
  put k o [] = (k, o) ∷ []
  put k o ((j, p) ∷ rest) = if same_key j k then (j, o) ∷ rest else (j, p) ∷ put k o rest

  drop : Key → Objects Obj → Objects Obj
  drop k [] = []
  drop k ((j, p) ∷ rest) = let more = drop k rest in if same_key j k then more else (j, p) ∷ more

  mutate : Key → Result Obj → Objects Obj → Result (Unit {0}) × Objects Obj
  mutate k (ok o) s = (ok tt, put k o s)
  mutate k (err e) s = (err e, s)

  remove : Key → Option Obj → Objects Obj → Result (Unit {0}) × Objects Obj
  remove k none s = (err (api not_found), s)
  remove k (some o) s = (ok tt, drop k s)

  unfoldable pub in_memory : Resource (Objects Obj) Obj
  unfolding find put drop mutate remove
  in_memory = record {
    read = find;
    create_or_update = λ k f s. mutate k (f (find s k)) s;
    delete = λ k s. remove k (find s k) s;
  }

  find-put :
      (k j : Key) (o : Obj) (s : Objects Obj)
      → find (put k o s) j ≡ (if same_key k j then some o else find s j)
  unfolding find put
  find-put k j o [] = refl
  find-put k j o ((i, p) ∷ rest) = ground (
    arith,
    find-put k j o rest,
    eq_iff k.name j.name,
    eq_iff k.namespace j.namespace,
    eq_iff i.name j.name,
    eq_iff i.namespace j.namespace,
    eq_iff i.name k.name,
    eq_iff i.namespace k.namespace,
  )

  find-drop :
      (k j : Key) (s : Objects Obj) → find (drop k s) j ≡ (if same_key k j then none else find s j)
  unfolding find drop
  find-drop k j [] = ground arith
  find-drop k j ((i, p) ∷ rest) = ground (
    arith,
    find-drop k j rest,
    eq_iff k.name j.name,
    eq_iff k.namespace j.namespace,
    eq_iff i.name j.name,
    eq_iff i.namespace j.namespace,
    eq_iff i.name k.name,
    eq_iff i.namespace k.namespace,
  )

  mutate-frame :
      (k j : Key) (r : Result Obj) (s : Objects Obj)
      → same_key k j ≡ false
      → find (mutate k r s).1 j ≡ find s j
  unfolding mutate
  mutate-frame k j (ok o) s h = rw (find-put k j o s) (rw h)
  mutate-frame k j (err e) s h = refl

  remove-frame :
      (k j : Key) (r : Option Obj) (s : Objects Obj)
      → same_key k j ≡ false
      → find (remove k r s).1 j ≡ find s j
  unfolding remove
  remove-frame k j none s h = refl
  remove-frame k j (some o) s h = rw (find-drop k j s) (rw h)

  mutate_ok :
      (k : Key) (r : Result Obj) (s : Objects Obj)
      → (mutate k r s).0 ≡ ok tt
      → (o : Obj) × (r ≡ ok o) × (find (mutate k r s).1 k ≡ some o)
  unfolding mutate
  mutate_ok k (ok o) s h = (o, refl, rw (find-put k k o s) (rw same_key_refl))
  mutate_ok k (err e) s h = cc

  mutate_err :
      (k : Key) (r : Result Obj) (s : Objects Obj) (e : Err) → (mutate k r s).0 ≡ err e → r ≡ err e
  unfolding mutate
  mutate_err k (ok o) s e h = cc
  mutate_err k (err x) s e h = cc

  -- After a deletion that finds the object, or does not, there is none.
  remove_gone :
      (k : Key) (r : Option Obj) (s : Objects Obj) → find s k ≡ r → find (remove k r s).1 k ≡ none
  unfolding remove
  remove_gone k none s h = h
  remove_gone k (some o) s h = rw (find-drop k k s) (rw same_key_refl)

  remove_err :
      (k : Key) (r : Option Obj) (s : Objects Obj) (e : Err)
      → (remove k r s).0 ≡ err e
      → (x : ApiError) × (e ≡ api x)
  unfolding remove
  remove_err k none s e h = (not_found, cc)
  remove_err k (some o) s e h = cc

  pub in_memory-IsLawful : IsLawful in_memory
  unfolding in_memory
  in_memory-IsLawful = record {
    create_or_update_frame = λ k j f s h. mutate-frame k j _ s h;
    delete_frame = λ k j s h. remove-frame k j _ s h;
    create_or_update_ok = λ k f s h. mutate_ok k _ s h;
    create_or_update_err = λ k f s e h. inr (mutate_err k _ s e h);
    delete_ok = λ k s h. remove_gone k _ s refl;
    delete_not_found = λ k s h. remove_gone k _ s refl;
    delete_err = λ k s e h. remove_err k _ s e h;
  }

  found : Option Obj → Result Obj
  found none = err (api not_found)
  found (some o) = ok o

  unfoldable pub get_in_memory : Getter (Objects Obj) Obj
  unfolding found find
  get_in_memory k s = (found (find s k), s)

  found_ok : (r : Option Obj) (o : Obj) → found r ≡ ok o → r ≡ some o
  unfolding found
  found_ok none o h = cc
  found_ok (some p) o h = ground arith

  found_err : (r : Option Obj) (e : Err) → found r ≡ err e → (e ≡ api not_found) × (r ≡ none)
  unfolding found
  found_err none e h = ground arith
  found_err (some p) e h = cc

  pub get_in_memory-IsFaithful : IsFaithful in_memory get_in_memory
  unfolding in_memory get_in_memory
  get_in_memory-IsFaithful = record {
    get_keeps = λ k s. refl;
    get_ok = λ k s o h. found_ok (find s k) o h;
    get_not_found = λ k s h. (found_err (find s k) _ h).1;
    get_err = λ k s e h. (not_found, (found_err (find s k) e h).0);
  }
