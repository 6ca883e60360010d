-- ===== src/Webhook/Agent/JavaOptions.antt =====
-- What `extendJavaOptsVar` does to the environment of a container.
use cryostat_operator.Prelude.{
  ◌≡◌, refl, ◌∙◌, ap, sym, ◌⊎◌, ℕ, zero, suc, String, ◌<>◌, ◌==◌, eq_iff, Option, none, some, List,
  [], ◌∷◌, ◌++◌, arith, if◌then◌else◌, inl, inr,
}
use cryostat_operator.Cluster.Monad.{Err, Result, ok, err}
use cryostat_operator.Webhook.Agent.{
  EnvVar, find_java_opts_var, extend_at, agent_arg_line, extend_java_opts_var,
}

found-cases :
    (r : Result (Option ℕ))
    → (r ≡ ok none) ⊎ (((i : ℕ) × (r ≡ ok (some i))) ⊎ ((e : Err) × (r ≡ err e)))
found-cases (ok none) = inl refl
found-cases (ok (some i)) = inr (inl (i, refl))
found-cases (err e) = inr (inr (e, refl))

module _ {Source : Type 0} where
  -- The first variable of that name, which is the one that is extended.
  unfoldable pub first_named : List (EnvVar Source) → String → Option (EnvVar Source)
  first_named [] name = none
  first_named (env ∷ envs) name =
      let rest = first_named envs name in if env.name == name then some env else rest

  -- The variable with the agent's argument after its value, or a new one.
  abbrev pub with_agent : String → String → Option (EnvVar Source) → EnvVar Source
  with_agent name line none = record { name = name; value = line; value_from = none }
  with_agent name line (some env) = record env { value = env.value <> (" " <> line) }

  -- What is found: the index of the first of the name, if it has a value of its own.
  find-none :
      (envs : List (EnvVar Source)) (name : String)
      → find_java_opts_var envs name ≡ ok none
      → first_named envs name ≡ none
  unfolding find_java_opts_var first_named
  find-none [] name h = refl
  find-none (env ∷ envs) name h = ground (arith, find-none envs name)

  first_named-append :
      (envs : List (EnvVar Source)) (added : EnvVar Source) (name : String)
      → first_named (envs ++ (added ∷ [])) name ≡ elim (first_named envs name) [
        | none ↦ (if added.name == name then some added else none)
        | some env ↦ some env
      ]
  unfolding first_named
  first_named-append [] added name = refl
  first_named-append (env ∷ envs) added name = ground (arith, first_named-append envs added name)

  first_named-extend_at :
      (envs : List (EnvVar Source)) (name asked line : String) (i : ℕ)
      → find_java_opts_var envs name ≡ ok (some i)
      → first_named (extend_at i (" " <> line) envs) asked ≡ (
          if asked == name
          then some (with_agent name line (first_named envs name))
          else first_named envs asked)
  unfolding find_java_opts_var first_named extend_at
  first_named-extend_at [] name asked line i h = cc
  first_named-extend_at (env ∷ envs) name asked line zero h =
      ground (arith, eq_iff env.name name, eq_iff env.name asked, eq_iff asked name)
  first_named-extend_at (env ∷ envs) name asked line (suc i) h = ground (
    arith,
    first_named-extend_at envs name asked line i,
    eq_iff env.name name,
    eq_iff env.name asked,
    eq_iff asked name,
  )

  -- If the agent's options are added, the first variable of the chosen name has the agent's argument
  -- after the value that it had, or is a new one with that argument alone, and each other variable
  -- is what it was.
  pub first_named-extend_java_opts_var :
      (envs out : List (EnvVar Source)) (name level asked : String)
      → extend_java_opts_var envs name level ≡ ok out
      → first_named out asked ≡ (
          if asked == name
          then some (with_agent name (agent_arg_line level) (first_named envs name))
          else first_named envs asked)
  unfolding extend_java_opts_var
  first_named-extend_java_opts_var envs out name level asked h =
      elim (found-cases (find_java_opts_var envs name)) [
        | inl missing ↦
            let fresh : envs ++ (with_agent name (agent_arg_line level) none ∷ []) ≡ out =
              ground arith in
            ap (λ l. first_named l asked) (sym fresh)
            ∙ (first_named-append envs (with_agent name (agent_arg_line level) none) asked
                ∙ rw (find-none envs name missing) (
                    ground
                      (arith, find-none envs name missing, eq_iff asked name, eq_iff name asked)))
        | inr (inl (i, found)) ↦
            let extended : extend_at i (" " <> agent_arg_line level) envs ≡ out = ground arith in
            ap (λ l. first_named l asked) (sym extended)
            ∙ first_named-extend_at envs name asked (agent_arg_line level) i found
        | inr (inr (e, failed)) ↦ absurd (ground arith)
      ]
