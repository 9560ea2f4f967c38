-- ===== src/Rules/Cache.antt =====
-- compile.ts: the cache of decisions changes no decision, and stays within its bound.
use line_deno_bot.Prelude.{
  ◌-◌, ◌≤◌, ◌≡◌, refl, ap, sym, ◌∙◌, subst, Option, some, List, [], ◌∷◌, arith, length, tail, leb,
  inl, inr, Bool-cases, Option-cases, All,
}
use line_deno_bot.Prelude.Text.{Text, text_eq, text_beq, text_beq_iff}
use line_deno_bot.Prelude.Dict.{lookup, insert, length-insert}
use line_deno_bot.Rules.{
  CompiledRule, RuleSpec, MatchOptions, CompiledRuleSet, ok, decide, remember_match, match_text,
  rule_set, compile_from, match_cache_max_entries,
}
use line_deno_bot.Rules.Best.{Best}
use line_deno_bot.Rules.Index.{canonical, passes, decide-Best}
use line_deno_bot.Rules.Compile.{compile_from-ok}

-- Each cached decision is the one that would be made now, and the cache is within its bound.
record IsCoherent (set : CompiledRuleSet) : Type 0 where
  cached : All (λ e. e.1 ≡ decide set e.0) set.cache
  bounded : length set.cache ≤ match_cache_max_entries

module _ (decision : Text → Option CompiledRule) where
  abbrev Right : List (Text × Option CompiledRule) → Type 0
  Right = All (λ e. e.1 ≡ decision e.0)

  lookup-Right :
      (t : Text) (c : Option CompiledRule) (cache : List (Text × Option CompiledRule))
      → Right cache
      → lookup t cache ≡ some c
      → c ≡ decision t
  unfolding lookup
  lookup-Right t c [] r h = cc
  lookup-Right t c ((k, d) ∷ cache) r h = elim (Bool-cases (text_beq k t)) [
    | inl e ↦
        let same : k ≡ t = (text_beq_iff k t).0 e in
        let found : d ≡ c = ground arith in
        sym found ∙ subst (λ (x : Text). d ≡ decision x) same r.0
    | inr e ↦ lookup-Right t c cache r.1 (ground arith)
  ]

  tail-Right : (cache : List (Text × Option CompiledRule)) → Right cache → Right (tail cache)
  tail-Right [] r = tt
  tail-Right (e ∷ cache) r = r.1

  insert-Right :
      (t : Text) (cache : List (Text × Option CompiledRule))
      → Right cache
      → Right (insert t (decision t) cache)
  unfolding insert
  insert-Right t [] r = (refl, tt)
  insert-Right t ((k, d) ∷ cache) r = elim (Bool-cases (text_beq k t)) [
    | inl e ↦ let same : k ≡ t = (text_beq_iff k t).0 e in rw e (ap decision (sym same), r.1)
    | inr e ↦ rw e (r.0, insert-Right t cache r.1)
  ]

  remember-Right :
      (t : Text) (cache : List (Text × Option CompiledRule))
      → Right cache
      → Right (remember_match t (decision t) cache)
  unfolding remember_match
  remember-Right t cache r = elim (Bool-cases (leb match_cache_max_entries (length cache))) [
    | inl full ↦ rw full (insert-Right t (tail cache) (tail-Right cache r))
    | inr room ↦ rw room (insert-Right t cache r)
  ]

length-tail : (cache : List (Text × Option CompiledRule)) → length (tail cache) ≡ length cache - 1
length-tail [] = omega arith
length-tail (e ∷ cache) = omega arith

remember-bounded :
    (t : Text) (d : Option CompiledRule) (cache : List (Text × Option CompiledRule))
    → length cache ≤ match_cache_max_entries
    → length (remember_match t d cache) ≤ match_cache_max_entries
unfolding remember_match
remember-bounded t d cache h =
    ground (arith, length-tail cache, length-insert t d (tail cache), length-insert t d cache)

module _ (nfc lower : Text → Text) where
  -- One match: the decision is that of the rules, and the cache stays coherent.
  match_text-decide :
      (set : CompiledRuleSet) (raw : Text)
      → IsCoherent set
      → ((match_text nfc lower set raw).1 ≡ decide set (canonical nfc lower set.options raw))
        × IsCoherent (match_text nfc lower set raw).0
  unfolding match_text decide
  match_text-decide set raw c =
      let t = canonical nfc lower set.options raw in
      elim (Option-cases (lookup t set.cache)) [
        | inl e ↦
            rw (e, match_text)
              (
                refl,
                record {
                  cached = remember-Right (decide set) t set.cache c.cached;
                  bounded = remember-bounded t (decide set t) set.cache c.bounded;
                },
              )
        | inr (d, e) ↦ rw (e, match_text) (lookup-Right (decide set) t d set.cache c.cached e, c)
      ]

  match_text-same :
      (set : CompiledRuleSet) (raw t : Text)
      → (decide (match_text nfc lower set raw).0 t ≡ decide set t)
        × ((match_text nfc lower set raw).0.options ≡ set.options)
  unfolding match_text decide
  match_text-same set raw t =
      elim (Option-cases (lookup (canonical nfc lower set.options raw) set.cache)) [
        | inl e ↦ rw (e, match_text) (refl, refl)
        | inr (d, e) ↦ rw (e, match_text) (refl, refl)
      ]

  -- The rule set after the texts of a run.
  unfoldable pub matched : CompiledRuleSet → List Text → CompiledRuleSet
  matched set [] = set
  matched set (raw ∷ raws) = matched (match_text nfc lower set raw).0 raws

  matched-decide :
      (raws : List Text) (set : CompiledRuleSet) (t : Text)
      → IsCoherent set
      → IsCoherent (matched set raws)
        × (decide (matched set raws) t ≡ decide set t)
        × ((matched set raws).options ≡ set.options)
  unfolding matched
  matched-decide [] set t c = (c, refl, refl)
  matched-decide (raw ∷ raws) set t c =
      let (_, c') = match_text-decide set raw c in
      let (same, options) = match_text-same set raw t in
      let (c'', same', options') = matched-decide raws (match_text nfc lower set raw).0 t c' in
      (c'', same' ∙ same, options' ∙ options)

  fresh :
      (options : MatchOptions) (specs : List RuleSpec) (rules : List CompiledRule)
      → IsCoherent (rule_set nfc lower options rules specs)
  unfolding rule_set
  fresh options specs rules = record { cached = tt; bounded = omega arith }

  start_options :
      (options : MatchOptions) (specs : List RuleSpec) (rules : List CompiledRule)
      → (rule_set nfc lower options rules specs).options ≡ options
  unfolding rule_set
  start_options options specs rules = refl

  -- Whatever texts were matched before, a match returns a rule that passes the text and that no
  -- passing rule beats, or nothing if no rule passes; and the cache holds at most 500 decisions.
  pub match_text-Best :
      (options : MatchOptions) (specs : List RuleSpec) (rules : List CompiledRule)
      (before : List Text) (raw : Text)
      → compile_from nfc lower options 0 [] specs ≡ ok rules
      → let set = matched (rule_set nfc lower options rules specs) before in
        Best
          (passes nfc lower options (canonical nfc lower options raw))
          rules
          (match_text nfc lower set raw).1
        × (length (match_text nfc lower set raw).0.cache ≤ match_cache_max_entries)
  match_text-Best options specs rules before raw e =
      let start = rule_set nfc lower options rules specs in
      let set = matched start before in
      let t = canonical nfc lower options raw in
      let (coherent, same, opts) = matched-decide before start t (fresh options specs rules) in
      let (decided, coherent') = match_text-decide set raw coherent in
      let (compiled, _, _) = compile_from-ok nfc lower options specs 0 [] rules e in
      let whole : (match_text nfc lower set raw).1 ≡ decide start t =
        decided
        ∙ ap (λ o. decide set (canonical nfc lower o raw))
            (opts ∙ start_options options specs rules)
        ∙ same in
      (rw whole (decide-Best nfc lower options t 0 rules specs compiled), coherent'.bounded)
