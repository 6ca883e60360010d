-- ===== src/Cluster/Loop.antt =====
-- A loop over namespaces that returns at the first error:
-- `for _, ns := range namespaces { err := body(ns); if err != nil { return err } }`.
use mathlib.Core.Path.{subst}
use cryostat_operator.Prelude.{
  sym, ◌≡◌, refl, String, true, false, List, [], ◌∷◌, contains, ◌==◌, eq_iff, arith, Bool-cases,
  inl, inr,
}
use cryostat_operator.Cluster.Monad.{err, then_do, Result, ok, M, pure, ◌>>◌, ◌>>=◌}

unfoldable pub for_each : {S : Type 0} → List String → (String → M S (Unit {0})) → M S (Unit {0})
for_each [] body = pure tt
for_each (ns ∷ rest) body = do body ns; for_each rest body

module _ {S X : Type 0} (body : String → M S (Unit {0})) (view : S → X)
    (keeps : (ns : String) (s : S) → view (body ns s).1 ≡ view s) where
  -- What no round of the loop changes, the loop does not change, even when it fails.
  pub for_each_keeps : (l : List String) (s : S) → view (for_each l body s).1 ≡ view s
  unfolding for_each
  for_each_keeps [] s = refl
  for_each_keeps (ns ∷ rest) s = ground (arith, keeps ns s, for_each_keeps rest (body ns s).1)

-- A sequence that succeeds is a success of its first part, and of the second from there.
pub >>-eq-ok :
    {S : Type 0} (m k : M S (Unit {0})) (s : S)
    → ((m >> k) s).0 ≡ ok tt
    → ((m s).0 ≡ ok tt) × ((k (m s).1).0 ≡ ok tt) × (((m >> k) s).1 ≡ (k (m s).1).1)
>>-eq-ok m k s h = ground arith

pub then_do-eq-ok :
    {S B : Type 0} (r : Result (Unit {0}) × S) (f : Unit {0} → M S B) {b : B}
    → (then_do r f).0 ≡ ok b
    → (r.0 ≡ ok tt) × ((f tt r.1).0 ≡ ok b) × ((then_do r f).1 ≡ (f tt r.1).1)
then_do-eq-ok (ok a, s) f h = (refl, h, refl)
then_do-eq-ok (err e, s) f h = cc

after-ok :
    {S A B : Type 0} (r : Result A × S) (f : A → M S B) {b : B}
    → (then_do r f).0 ≡ ok b
    → (a : A) × (r.0 ≡ ok a) × ((f a r.1).0 ≡ ok b) × ((then_do r f).1 ≡ (f a r.1).1)
after-ok (ok a, s) f h = (a, refl, h, refl)
after-ok (err e, s) f h = absurd cc

-- The same for a first part that returns a value.
pub bind-eq-ok :
    {S A B : Type 0} (m : M S A) (f : A → M S B) (s : S) {b : B}
    → ((m >>= f) s).0 ≡ ok b
    → (a : A) × ((m s).0 ≡ ok a) × ((f a (m s).1).0 ≡ ok b) × (((m >>= f) s).1 ≡ (f a (m s).1).1)
bind-eq-ok m f s h = after-ok (m s) f h

module _ {S X : Type 0} (body : String → M S (Unit {0})) (view : S → String → X)
    (P : String → X → Type 0)
    (frame : (ns j : String) (s : S) → (ns == j) ≡ false → view (body ns s).1 j ≡ view s j)
    (done : (ns : String) (s : S) → (body ns s).0 ≡ ok tt → P ns (view (body ns s).1 ns)) where
  -- Namespaces that are not in the list are left alone, even when the loop fails.
  pub for_each_frame :
      (l : List String) (s : S) (j : String)
      → contains l j ≡ false
      → view (for_each l body s).1 j ≡ view s j
  unfolding for_each contains
  for_each_frame [] s j m = refl
  for_each_frame (ns ∷ rest) s j m =
      ground (arith, frame ns j s, for_each_frame rest (body ns s).1 j)

  -- A loop that succeeds has done its work in each namespace of the list, and in no other.
  pub for_each_done :
      (l : List String) (s : S) (j : String)
      → (for_each l body s).0 ≡ ok tt
      → contains l j ≡ true
      → P j (view (for_each l body s).1 j)
  unfolding for_each contains
  for_each_done [] s j h m = cc
  for_each_done (ns ∷ rest) s j h m =
      let (first, later, same) = >>-eq-ok (body ns) (for_each rest body) s h in
      elim (Bool-cases (contains rest j)) [
        | inl again ↦
            subst (λ t. P j (view t j)) (sym same) (for_each_done rest (body ns s).1 j later again)
        | inr last ↦
            let e : ns ≡ j = (eq_iff ns j).0 (ground arith) in
            let kept : view (for_each rest body (body ns s).1).1 j ≡ view (body ns s).1 j =
              for_each_frame rest (body ns s).1 j last in
            subst (λ t. P j (view t j)) (sym same)
              (subst (P j) (sym kept) (subst (λ i. P i (view (body ns s).1 i)) e (done ns s first)))
      ]
