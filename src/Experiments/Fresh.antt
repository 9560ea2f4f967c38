-- ===== src/Experiments/Fresh.antt =====
-- registry.ts: the registry from its definitions on.
use line_deno_bot.Prelude.{
  ℕ, ◌≡◌, refl, subst, false, Option, none, some, List, [], ◌∷◌, arith, if-cases, get_or, All, ltb,
}
use line_deno_bot.Prelude.Text.{Text, text_beq, text_eq, trim}
use line_deno_bot.Prelude.Dict.{lookup, insert, All-lookup}
use line_deno_bot.Experiments.Registry.{
  Entry, ExperimentDefinition, ExperimentRegistry, Answer, answered, thrown, is_active,
  new_registry, resolved, checked, RegistryError, define_all, is_held, is_blank, entry_of,
  unresolved,
}
use line_deno_bot.Experiments.Active.{Call, run, has_bare_adoption, count_on}
use line_deno_bot.Experiments.Conflicts.{IsSafe, run-IsSafe}

abbrev IsOff : Text × Entry → Type 0
IsOff e = is_active e.1.state ≡ false

insert-IsOff :
    (id : Text) (entry : Entry) (entries : List (Text × Entry))
    → is_active entry.state ≡ false
    → All IsOff entries
    → All IsOff (insert id entry entries)
unfolding insert
insert-IsOff id entry [] off h = (off, tt)
insert-IsOff id entry ((k, x) ∷ rest) off h =
    if-cases (All IsOff) (text_beq k id) ((k, entry) ∷ rest) ((k, x) ∷ insert id entry rest)
      (λ e. (off, h.1)) (λ e. (h.0, insert-IsOff id entry rest off h.1))

count_on-off : (entries : List (Text × Entry)) → All IsOff entries → count_on entries ≡ 0
count_on-off [] h = refl
count_on-off ((k, x) ∷ rest) h = let off = h.0 in ground (arith, off, count_on-off rest h.1)

-- What an answer holds, unless it is an error.
abbrev IfAnswered : {A : Type 0} → (A → Type 0) → Answer A → Type 0
IfAnswered P (answered a) = P a
IfAnswered P (thrown e) = Unit

entry_of-IsOff : (d : ExperimentDefinition) → is_active (entry_of d).state ≡ false
unfolding entry_of
entry_of-IsOff d = ground arith

define_all-IsOff :
    (ds : List ExperimentDefinition) (entries : List (Text × Entry))
    → All IsOff entries
    → IfAnswered (All IsOff) (define_all ds entries)
unfolding define_all
define_all-IsOff [] entries h = h
define_all-IsOff (d ∷ ds) entries h =
    let P : Answer (List (Text × Entry)) → Type 0 = IfAnswered (All IsOff) in
    if-cases P (is_held (lookup d.id entries)) _ _ (λ e. tt)
      (λ e.
        if-cases P (is_blank (trim d.rollback)) _ _ (λ e'. tt)
          (λ e'.
            if-cases P (ltb d.min_samples 1) _ _ (λ e2. tt)
              (λ e2.
                define_all-IsOff ds (insert d.id (entry_of d) entries)
                  (insert-IsOff d.id (entry_of d) entries (entry_of-IsOff d) h))))

off-IsSafe :
    (ceiling : ℕ) (entries : List (Text × Entry))
    → All IsOff entries
    → IsSafe ceiling (record { entries = entries; max_concurrent = ceiling })
off-IsSafe ceiling entries h = record {
  bounded = let n = count_on-off entries h in omega (arith, n);
  ceiling_kept = refl;
  apart = λ a b x y ex ey on on' ne.
      let off = All-lookup (λ z. is_active z.state ≡ false) a x entries h ex in
      absurd (ground (arith, on, off));
}

resolved-IsSafe :
    (ceiling : ℕ) (a : Answer (List (Text × Entry)))
    → IfAnswered (All IsOff) a
    → IfAnswered (IsSafe ceiling) (resolved ceiling a)
resolved-IsSafe ceiling (thrown e) h = tt
resolved-IsSafe ceiling (answered entries) h = judged (unresolved entries entries)
  where
    judged : (o : Option RegistryError) → IfAnswered (IsSafe ceiling) (checked ceiling entries o)
    judged none = off-IsSafe ceiling entries h
    judged (some e) = tt

-- From any definitions that the registry takes, and through any calls in which no experiment is adopted
-- that is not on: at most the ceiling are on, and of two that are on neither lists the other.
pub new_registry-IsSafe :
    (ds : List ExperimentDefinition) (max_concurrent : Option ℕ) (calls : List Call)
    (r : ExperimentRegistry)
    → new_registry ds max_concurrent ≡ answered r
    → has_bare_adoption calls r ≡ false
    → IsSafe (get_or max_concurrent 1) (run calls r)
unfolding new_registry
new_registry-IsSafe ds max_concurrent calls r e fair =
    let ceiling = get_or max_concurrent 1 in
    run-IsSafe ceiling calls r fair (
      subst (IfAnswered (IsSafe ceiling)) e
        (resolved-IsSafe ceiling (define_all ds []) (define_all-IsOff ds [] tt)))
