-- ===== src/Common/Resources/Bounds.antt =====
-- What the defaults give for each resource, and that no request is above its limit.
use cryostat_operator.Prelude.{
  ◌≡◌, refl, ◌∙◌, String, false, ◌||◌, ◌==◌, eq_iff, Option, none, some, [], ◌∷◌, arith, inl, inr,
  ◌⊎◌, sym, Bool-cases, get_or, is_some, if◌then◌else◌,
}
use cryostat_operator.Prelude.Dict.{lookup, lookup-insert}
use cryostat_operator.Common.Resources.{
  Quantities, cpu, memory, ResourceList, ResourceRequirements, add_default, lower_to_limit,
  check_resource_request_with_limit, populate_resource_request,
}

module _ (Q : Quantities) where
  -- A request with its limit, if there is one.
  abbrev pub limited : Option Q.Quantity → Q.Quantity → Q.Quantity
  limited none q = q
  limited (some limit) q = if Q.less limit q then limit else q

  lookup-add_default :
      (k j text : String) (requests : ResourceList Q)
      → lookup j (add_default Q k text requests) ≡ (
          if k == j
          then some (get_or (lookup j requests) (Q.must_parse text))
          else lookup j requests)
  unfolding add_default
  lookup-add_default k j text requests =
      ground (arith, lookup-insert k j (Q.must_parse text) requests, eq_iff k j, eq_iff j k)

  lookup-lower_to_limit :
      (k j : String) (limits requests : ResourceList Q) (q : Q.Quantity)
      → lookup k requests ≡ some q
      → lookup j (lower_to_limit Q k limits requests)
        ≡ (if k == j then some (limited (lookup k limits) q) else lookup j requests)
  unfolding lower_to_limit
  lookup-lower_to_limit k j limits requests q h =
      ground
        (arith, lookup-insert k j (get_or (lookup k limits) q) requests, eq_iff k j, eq_iff j k)

  -- The request for `k` before the limits are looked at.
  abbrev pub requested : ResourceRequirements Q → String → String → Q.Quantity
  requested r k text = get_or (lookup k (get_or r.requests [])) (Q.must_parse text)

  -- The user's limits if requests or limits are given, and else the default ones.
  abbrev pub effective_limit : ResourceRequirements Q → String → String → Option Q.Quantity
  effective_limit r k text =
      if is_some r.requests || is_some r.limits
      then lookup k (get_or r.limits [])
      else some (Q.must_parse text)

  abbrev defaulted : ResourceRequirements Q → String → String → ResourceList Q
  defaulted r cpu_request memory_request =
      add_default Q memory memory_request (add_default Q cpu cpu_request (get_or r.requests []))

  lookup-cpu-defaulted :
      (r : ResourceRequirements Q) (cr mr : String)
      → lookup cpu (defaulted r cr mr) ≡ some (requested r cpu cr)
  lookup-cpu-defaulted r cr mr =
      rw (lookup-add_default memory cpu mr) (rw (lookup-add_default cpu cpu cr))

  lookup-memory-defaulted :
      (r : ResourceRequirements Q) (cr mr : String)
      → lookup memory (defaulted r cr mr) ≡ some (requested r memory mr)
  lookup-memory-defaulted r cr mr =
      rw (lookup-add_default memory memory mr) (rw (lookup-add_default cpu memory cr))

  -- Each check leaves the other resource's request alone.
  lookup-check :
      (requests : ResourceList Q) (limits : Option (ResourceList Q)) (qc qm : Q.Quantity)
      → lookup cpu requests ≡ some qc
      → lookup memory requests ≡ some qm
      → (lookup cpu (check_resource_request_with_limit Q requests limits)
          ≡ some (limited (lookup cpu (get_or limits [])) qc))
        × (lookup memory (check_resource_request_with_limit Q requests limits)
            ≡ some (limited (lookup memory (get_or limits [])) qm))
        × ((k : String)
            → (cpu == k) ≡ false
            → (memory == k) ≡ false
            → lookup k (check_resource_request_with_limit Q requests limits) ≡ lookup k requests)
  unfolding check_resource_request_with_limit lookup
  lookup-check requests none qc qm hc hm = (hc, hm, λ k a b. refl)
  lookup-check requests (some limits) qc qm hc hm =
      let first = lookup-lower_to_limit cpu memory limits requests qc hc ∙ hm in
      let lowered = lower_to_limit Q cpu limits requests in
      (
        lookup-lower_to_limit memory cpu limits lowered qm first
            ∙ lookup-lower_to_limit cpu cpu limits requests qc hc,
        lookup-lower_to_limit memory memory limits lowered qm first,
        λ k a b.
            lookup-lower_to_limit memory k limits lowered qm first
            ∙ rw b (lookup-lower_to_limit cpu k limits requests qc hc ∙ rw a),
      )

  -- The request for CPU is the user's or else the default, lowered to the limit that is in force;
  -- so it is for memory; and the limits are the user's if the user gave requests or limits.
  populate_resource_request_lem :
      (r : ResourceRequirements Q) (cr mr cl ml : String)
      → let out = populate_resource_request Q r cr mr cl ml in
        (lookup cpu (get_or out.requests [])
          ≡ some (limited (effective_limit r cpu cl) (requested r cpu cr)))
        × (lookup memory (get_or out.requests [])
            ≡ some (limited (effective_limit r memory ml) (requested r memory mr)))
        × (lookup cpu (get_or out.limits []) ≡ effective_limit r cpu cl)
        × (lookup memory (get_or out.limits []) ≡ effective_limit r memory ml)
  unfolding populate_resource_request lookup
  populate_resource_request_lem r cr mr cl ml =
      let cpu_request = lookup-cpu-defaulted r cr mr in
      let memory_request = lookup-memory-defaulted r cr mr in
      let requests = defaulted r cr mr in
      let defaults : Option (ResourceList Q) =
        some ((cpu, Q.must_parse cl) ∷ (memory, Q.must_parse ml) ∷ []) in
      elim (Bool-cases (is_some r.requests || is_some r.limits)) [
        | inl e ↦
            let c = lookup-check requests r.limits _ _ cpu_request memory_request in
            rw e (c.0, c.1, refl, refl)
        | inr e ↦
            let c = lookup-check requests defaults _ _ cpu_request memory_request in
            rw e (c.0, c.1, refl, refl)
      ]

  limited-fits :
      (limit q : Q.Quantity)
      → Q.less limit limit ≡ false
      → Q.less limit (limited (some limit) q) ≡ false
  limited-fits limit q h = elim (Bool-cases (Q.less limit q)) [ inl e ↦ rw e h | inr e ↦ rw e e ]

  fits_at :
      (o : Option Q.Quantity) (q limit request : Q.Quantity)
      → ((q : Q.Quantity) → Q.less q q ≡ false)
      → o ≡ some limit
      → some (limited o q) ≡ some request
      → Q.less limit request ≡ false
  fits_at none q limit request irrefl ho hr = cc
  fits_at (some l) q limit request irrefl ho hr = cc (limited-fits l q (irrefl l))

  -- After the defaults, neither the request for CPU nor that for memory is above its limit, whatever
  -- the user gave, if no quantity is less than itself.
  pub populate_within_limits :
      (r : ResourceRequirements Q) (cr mr cl ml k : String) (limit request : Q.Quantity)
      → ((q : Q.Quantity) → Q.less q q ≡ false)
      → (k ≡ cpu) ⊎ (k ≡ memory)
      → lookup k (get_or (populate_resource_request Q r cr mr cl ml).limits []) ≡ some limit
      → lookup k (get_or (populate_resource_request Q r cr mr cl ml).requests []) ≡ some request
      → Q.less limit request ≡ false
  populate_within_limits r cr mr cl ml k limit request irrefl (inl is_cpu) hl hr =
      let e = populate_resource_request_lem r cr mr cl ml in
      fits_at _ _ limit request irrefl (sym e.2 ∙ (rw is_cpu at hl)) (sym e.0 ∙ (rw is_cpu at hr))
  populate_within_limits r cr mr cl ml k limit request irrefl (inr is_memory) hl hr =
      let e = populate_resource_request_lem r cr mr cl ml in
      fits_at _ _ limit request irrefl (sym e.3 ∙ (rw is_memory at hl))
        (sym e.1 ∙ (rw is_memory at hr))
