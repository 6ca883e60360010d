-- ===== src/Common/Naming/Injective.antt =====
-- The text that is hashed tells slash-free names and namespaces apart.
use Prim.Native.Char.{Char, code}
use text.Mathlib.TextLemmas.{
  append_cancel_left, append_assoc, cons-append, nil-append, nil≢cons, head-eq_of_cons-eq,
  tail-eq_of_cons-eq,
}
use cryostat_operator.Prelude.{◌≡◌, ◌≢◌, refl, sym, ap, ◌∙◌, String, ◌<>◌}
use mathlib.Core.Path.{ap₂}
use cryostat_operator.Common.Naming.{
  Checksums, GroupVersionKind, prefix_with_kind, to_hash, cluster_unique_name_with_prefix_target_ns,
}

-- No character of the text is a slash: so it is with the names of Kubernetes objects.
abbrev pub NoSlash : String → Type 0
NoSlash String.[] = Unit {0}
NoSlash (String.◌∷◌ c s) = (code c ≢ b'/') × NoSlash s

abbrev slash : Char
slash = "/"

slash-cons : (x : String) → "/" <> x ≡ String.◌∷◌ slash x
slash-cons x = cons-append slash "" x ∙ ap (String.◌∷◌ slash) (nil-append x)

-- A text up to its first slash is determined, and so is what follows.
first_part :
    (a b x y : String)
    → NoSlash a
    → NoSlash b
    → a <> ("/" <> x) ≡ b <> ("/" <> y)
    → (a ≡ b) × (x ≡ y)
first_part String.[] String.[] x y ha hb e =
    (refl, append_cancel_left "/" x y (simp nil-append at e))
first_part String.[] (String.◌∷◌ c b) x y ha hb e =
    absurd
      (hb.0 (ap code (sym (head-eq_of_cons-eq (simp (nil-append, slash-cons, cons-append) at e)))))
first_part (String.◌∷◌ c a) String.[] x y ha hb e =
    absurd (ha.0 (ap code (head-eq_of_cons-eq (simp (nil-append, slash-cons, cons-append) at e))))
first_part (String.◌∷◌ c a) (String.◌∷◌ d b) x y ha hb e =
    let e' : String.◌∷◌ c (a <> ("/" <> x)) ≡ String.◌∷◌ d (b <> ("/" <> y)) =
      sym (cons-append c a _) ∙ e ∙ cons-append d b _ in
    let rest = first_part a b x y ha.1 hb.1 (tail-eq_of_cons-eq e') in
    (ap₂ String.◌∷◌ (head-eq_of_cons-eq e') rest.0, rest.1)

-- A name with no slash does not go on with one.
NoSlash-append : (a b x : String) → NoSlash a → ¬ (a ≡ b <> ("/" <> x))
NoSlash-append String.[] String.[] x ha e = nil≢cons (simp (nil-append, slash-cons) at e)
NoSlash-append String.[] (String.◌∷◌ d b) x ha e = nil≢cons (simp cons-append at e)
NoSlash-append (String.◌∷◌ c a) String.[] x ha e =
    ha.0 (ap code (head-eq_of_cons-eq (simp (nil-append, slash-cons) at e)))
NoSlash-append (String.◌∷◌ c a) (String.◌∷◌ d b) x ha e =
    NoSlash-append a b x ha.1 (tail-eq_of_cons-eq (e ∙ cons-append d b _))

-- With a target namespace the hashed text goes on after the name.
regroup :
    (namespace name target : String)
    → (namespace <> ("/" <> name)) <> ("/" <> target)
      ≡ namespace <> ("/" <> (name <> ("/" <> target)))
regroup namespace name target = simp append_assoc

-- The text that is hashed determines the name, the namespace and the target namespace, if none of
-- them has a slash.
pub to_hash_injective :
    (name namespace target name' namespace' target' : String)
    → NoSlash name
    → NoSlash namespace
    → NoSlash name'
    → NoSlash namespace'
    → to_hash name namespace target ≡ to_hash name' namespace' target'
    → (name ≡ name') × (namespace ≡ namespace') × (target ≡ target')
unfolding to_hash
to_hash_injective name namespace String.[] name' namespace' String.[] hn hs hn' hs' e =
    let (same, rest) = first_part namespace namespace' name name' hs hs' e in (rest, same, refl)
to_hash_injective name namespace String.[] name' namespace' (String.◌∷◌ c t') hn hs hn' hs' e =
    absurd (
      NoSlash-append name name' (String.◌∷◌ c t') hn
        (first_part namespace namespace' _ _ hs hs' (e ∙ regroup namespace' name' _)).1)
to_hash_injective name namespace (String.◌∷◌ c t) name' namespace' String.[] hn hs hn' hs' e =
    absurd (
      NoSlash-append name' name (String.◌∷◌ c t) hn'
        (first_part namespace' namespace _ _ hs' hs (sym e ∙ regroup namespace name _)).1)
to_hash_injective name namespace (String.◌∷◌ c t) name' namespace' (String.◌∷◌ c' t') hn hs hn' hs'
      e =
    let (same, rest) =
      first_part namespace namespace' _ _ hs hs'
        (sym (regroup namespace name _) ∙ e ∙ regroup namespace' name' _) in
    let (same_name, same_target) = first_part name name' _ _ hn hn' rest in
    (same_name, same, same_target)

-- Two instances, whose names and namespaces have no slash, that get the same cluster-unique name for
-- the same kind and prefix are the same instance with the same target namespace, if SHA-256 does not
-- collide on the two texts that are hashed for them.
pub cluster_unique_name_injective :
    (H : Checksums) (gvk : GroupVersionKind) (prefix : String)
    (name namespace target name' namespace' target' : String)
    → NoSlash name
    → NoSlash namespace
    → NoSlash name'
    → NoSlash namespace'
    → (H.sha256 (to_hash name namespace target) ≡ H.sha256 (to_hash name' namespace' target')
        → to_hash name namespace target ≡ to_hash name' namespace' target')
    → cluster_unique_name_with_prefix_target_ns H gvk prefix name namespace target
      ≡ cluster_unique_name_with_prefix_target_ns H gvk prefix name' namespace' target'
    → (name ≡ name') × (namespace ≡ namespace') × (target ≡ target')
unfolding cluster_unique_name_with_prefix_target_ns
cluster_unique_name_injective H gvk prefix name namespace target name' namespace' target' hn hs hn'
      hs' free e =
    to_hash_injective name namespace target name' namespace' target' hn hs hn' hs'
      (free (append_cancel_left "-" _ _ (append_cancel_left (prefix_with_kind gvk prefix) _ _ e)))
