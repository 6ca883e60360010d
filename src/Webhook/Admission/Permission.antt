-- ===== src/Webhook/Admission/Permission.antt =====
-- Who may have an installation that targets a namespace.
use cryostat_operator.Prelude.{
  ◌≢◌, false, ◌≡◌, refl, ap, ◌∙◌, sym, inl, inr, String, Bool, true, eq_iff, Option, none, some,
  List, [], ◌∷◌, arith, contains, get_or, if◌then◌else◌, Bool-cases,
}
use cryostat_operator.Api.Kube.{Kube}
use cryostat_operator.Api.V1beta2.{Cryostat}
use cryostat_operator.Cluster.Monad.{Result, ok, err, not_permitted, M}
use cryostat_operator.Cluster.Loop.{for_each, >>-eq-ok}
use cryostat_operator.Webhook.Admission.{
  translate_extra, UserInfo, AccessReview, review_of, check_namespace, validate, validate_create,
  default_cryostat,
}

module _ {S : Type 0} (review : AccessReview → M S Bool) (user : UserInfo) (op : String) where
  -- The API has answered that the user may have an installation in the namespace.
  abbrev pub Allowed : String → Type 0
  Allowed ns = (t : S) × ((review (review_of user ns) t).0 ≡ ok true)

  check_namespace_ok :
      (ns : String) (s : S) → (check_namespace review user op ns s).0 ≡ ok tt → Allowed ns
  unfolding check_namespace
  check_namespace_ok ns s h = (s, ground arith)

  checked :
      (l : List String) (s : S) (ns : String)
      → (for_each l (check_namespace review user op) s).0 ≡ ok tt
      → contains l ns ≡ true
      → Allowed ns
  unfolding for_each contains
  checked [] s ns h m = cc
  checked (x ∷ l) s ns h m =
      let (first, later, same) =
        >>-eq-ok (check_namespace review user op x) (for_each l (check_namespace review user op)) s
          h in
      elim (Bool-cases (contains l ns)) [
        | inl again ↦ checked l _ ns later again
        | inr last ↦
            let (t, said) = check_namespace_ok x s first in
            let e : x ≡ ns = (eq_iff x ns).0 (ground arith) in
            (t, ap (λ n. (review (review_of user n) t).0) (sym e) ∙ said)
      ]

  -- An object that the webhook lets pass has no target namespace but those of which the API has
  -- answered that the user, by name, groups and identifier, may create a Cryostat object there.
  pub validate_permitted :
      {K : Kube} (cr : Cryostat K) (s : S) (ns : String)
      → (validate review (some user) cr op s).0 ≡ ok tt
      → contains (get_or cr.spec.target_namespaces []) ns ≡ true
      → (t : S) × ((review
            (record {
              user = user.username;
              groups = user.groups;
              uid = user.uid;
              extra = translate_extra user.extra;
              namespace = ns;
              verb = "create";
              group = "operator.cryostat.io";
              version = "v1beta2";
              resource = "cryostats";
            })
            t).0
          ≡ ok true)
  unfolding validate review_of
  validate_permitted cr s ns h m = checked (get_or cr.spec.target_namespaces []) s ns h m

-- The first namespace that a policy does not allow.
unfoldable pub first_denied : (String → Bool) → List String → Option String
first_denied allows [] = none
first_denied allows (ns ∷ rest) = if allows ns then first_denied allows rest else some ns

abbrev pub verdict : String → Option String → Result (Unit {0})
verdict op none = ok tt
verdict op (some ns) = err (not_permitted op ns)

for_each-check_namespace :
    {S : Type 0} (review : AccessReview → M S Bool) (policy : AccessReview → Bool) (user : UserInfo)
    (op : String) (l : List String) (s : S)
    → ((r : AccessReview) (t : S) → review r t ≡ (ok (policy r), t))
    → (for_each l (check_namespace review user op) s).0
      ≡ verdict op (first_denied (λ ns. policy (review_of user ns)) l)
unfolding for_each check_namespace first_denied
for_each-check_namespace review policy user op [] s answers = refl
for_each-check_namespace review policy user op (ns ∷ l) s answers =
    let answer = answers (review_of user ns) s in
    rw answer (elim (Bool-cases (policy (review_of user ns))) [
      | inl allowed ↦ rw allowed (for_each-check_namespace review policy user op l s answers)
      | inr denied ↦ rw denied refl
    ])

-- Where the API answers each review by a fixed policy and never fails, an object passes exactly if
-- the policy allows all its target namespaces, and the error names the first that it does not.
pub validate_by_policy :
    {S : Type 0} (review : AccessReview → M S Bool) (policy : AccessReview → Bool) (user : UserInfo)
    (op : String) {K : Kube} (cr : Cryostat K) (s : S)
    → ((r : AccessReview) (t : S) → review r t ≡ (ok (policy r), t))
    → (validate review (some user) cr op s).0
      ≡ verdict op
          (first_denied (λ ns. policy (review_of user ns)) (get_or cr.spec.target_namespaces []))
unfolding validate
validate_by_policy review policy user op cr s answers =
    for_each-check_namespace review policy user op (get_or cr.spec.target_namespaces []) s answers

-- Where the API answers each review by a fixed policy and never fails, an object that a user creates
-- is let pass, after the defaults, exactly if the policy allows its own namespace, where the target
-- namespaces are not set, or else all of those that are set, which may be none; the error names the
-- first that it does not allow.
pub validate_create-default_cryostat :
    {S : Type 0} (review : AccessReview → M S Bool) (policy : AccessReview → Bool) (user : UserInfo)
    {K : Kube} (cr : Cryostat K) (s : S)
    → ((r : AccessReview) (t : S) → review r t ≡ (ok (policy r), t))
    → (validate_create review (some user) (default_cryostat cr) s).0
      ≡ verdict "create" (elim (cr.spec.target_namespaces) [
        | none ↦
            if policy (review_of user (K.namespace cr.object_meta))
            then none
            else some (K.namespace cr.object_meta)
        | some l ↦ first_denied (λ ns. policy (review_of user ns)) l
      ])
unfolding validate_create default_cryostat first_denied
validate_create-default_cryostat review policy user {K} cr s answers =
    validate_by_policy review policy user "create" (default_cryostat cr) s answers
    ∙ ap (verdict "create") (ground arith)

-- The defaults fill in what is not set and change nothing else: target namespaces and an audit
-- setting that the user has given stay; target namespaces that are not set become the object's own
-- namespace; audit logging is switched on by default for an object that
-- is being created, and never for one that exists already, by its creation time or its version.
pub default_cryostat_fills :
    {K : Kube} (cr : Cryostat K)
    → (default_cryostat cr ≡ record cr {
      spec = record (cr.spec) {
        target_namespaces = (default_cryostat cr).spec.target_namespaces;
        enable_audit = (default_cryostat cr).spec.enable_audit;
      };
    })
      × ((l : List String)
          → cr.spec.target_namespaces ≡ some l
          → (default_cryostat cr).spec.target_namespaces ≡ some l)
      × (cr.spec.target_namespaces ≡ none
          → (default_cryostat cr).spec.target_namespaces ≡ some (K.namespace cr.object_meta ∷ []))
      × ((b : Bool)
          → cr.spec.enable_audit ≡ some b
          → (default_cryostat cr).spec.enable_audit ≡ some b)
      × (K.is_uncreated cr.object_meta ≡ false
          → (default_cryostat cr).spec.enable_audit ≡ cr.spec.enable_audit)
      × (K.resource_version cr.object_meta ≢ ""
          → (default_cryostat cr).spec.enable_audit ≡ cr.spec.enable_audit)
      × (K.is_uncreated cr.object_meta ≡ true
          → K.resource_version cr.object_meta ≡ ""
          → cr.spec.enable_audit ≡ none
          → (default_cryostat cr).spec.enable_audit ≡ some true)
unfolding default_cryostat
default_cryostat_fills {K} cr =
    let version = eq_iff (K.resource_version cr.object_meta) "" in
    (
      refl,
      λ l h. ground arith,
      λ h. ground arith,
      λ b h. ground arith,
      λ h. ground arith,
      λ h. ground arith,
      λ new empty unset. ground arith,
    )
