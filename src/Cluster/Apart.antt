-- ===== src/Cluster/Apart.antt =====
-- Calls for two kinds of objects of one cluster: a call for one kind leaves the objects of the other
-- as they are. Two clusters side by side are such a cluster.
use cryostat_operator.Prelude.{arith, ◌≡◌, Option}
use cryostat_operator.Cluster.{Key, Resource, IsLawful}
use cryostat_operator.Cluster.Monad.{Result, ignore_not_found}

-- The calls for `Q` do not change what is read of `view`.
pub record IsApart {S Obj X : Type 0} (view : S → X) (Q : Resource S Obj) : Type 0 where
  pub update_keeps :
      (k : Key) (f : Option Obj → Result Obj) (s : S) → view (Q.create_or_update k f s).1 ≡ view s
  pub delete_keeps : (k : Key) (s : S) → view (Q.delete k s).1 ≡ view s

pub ignored_keeps :
    {S Obj X : Type 0} (view : S → X) (Q : Resource S Obj)
    → IsApart view Q
    → (k : Key) (s : S) → view (ignore_not_found (Q.delete k) s).1 ≡ view s
unfolding ignore_not_found
ignored_keeps view Q apart k s = ground (arith, apart.delete_keeps k s)

abbrev pub on_first : {S T : Type 0} → Result (Unit {0}) × S → T → Result (Unit {0}) × (S × T)
on_first r t = (r.0, (r.1, t))

abbrev pub on_second : {S T : Type 0} → S → Result (Unit {0}) × T → Result (Unit {0}) × (S × T)
on_second s r = (r.0, (s, r.1))

module _ {S T Obj : Type 0} where
  abbrev pub first : Resource S Obj → Resource (S × T) Obj
  first R = record {
    read = λ s. R.read s.0;
    create_or_update = λ k f s. on_first (R.create_or_update k f s.0) s.1;
    delete = λ k s. on_first (R.delete k s.0) s.1;
  }

  abbrev pub second : Resource T Obj → Resource (S × T) Obj
  second R = record {
    read = λ s. R.read s.1;
    create_or_update = λ k f s. on_second s.0 (R.create_or_update k f s.1);
    delete = λ k s. on_second s.0 (R.delete k s.1);
  }

  pub first-IsLawful : (R : Resource S Obj) → IsLawful R → IsLawful (first R)
  first-IsLawful R L = record {
    create_or_update_frame = λ k j f s h. L.create_or_update_frame k j f s.0 h;
    delete_frame = λ k j s h. L.delete_frame k j s.0 h;
    create_or_update_ok = λ k f s h. L.create_or_update_ok k f s.0 h;
    create_or_update_err = λ k f s e h. L.create_or_update_err k f s.0 e h;
    delete_ok = λ k s h. L.delete_ok k s.0 h;
    delete_not_found = λ k s h. L.delete_not_found k s.0 h;
    delete_err = λ k s e h. L.delete_err k s.0 e h;
  }

  pub second-IsLawful : (R : Resource T Obj) → IsLawful R → IsLawful (second R)
  second-IsLawful R L = record {
    create_or_update_frame = λ k j f s h. L.create_or_update_frame k j f s.1 h;
    delete_frame = λ k j s h. L.delete_frame k j s.1 h;
    create_or_update_ok = λ k f s h. L.create_or_update_ok k f s.1 h;
    create_or_update_err = λ k f s e h. L.create_or_update_err k f s.1 e h;
    delete_ok = λ k s h. L.delete_ok k s.1 h;
    delete_not_found = λ k s h. L.delete_not_found k s.1 h;
    delete_err = λ k s e h. L.delete_err k s.1 e h;
  }
