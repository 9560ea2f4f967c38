-- ===== src/Rules/Index.antt =====
-- compile.ts: the index of the exact rules, and the decision that goes through it, against the
-- plain reading of the rules.
use mathlib.Core.List.{append-nil, append_assoc}
use line_deno_bot.Prelude.{
  ℕ, suc, ◌≡◌, refl, sym, ap, subst, inl, inr, Bool, true, false, not, ◌&&◌, Option, none, some,
  List, [], ◌∷◌, ◌++◌, arith, if◌then◌else◌, filter, Bool-cases, In,
}
use line_deno_bot.Prelude.Text.{Text, text_eq, text_beq, text_beq_iff}
use line_deno_bot.Prelude.Dict.{lookup, insert, lookup-insert}
use line_deno_bot.Rules.{
  CompiledRule, RuleSpec, MatchOptions, kind_of, build_test, is_exact, beats, beats_best,
  normalize_text, index_exact, rule_set, decide, collect_candidates, hit,
}
use line_deno_bot.Rules.Best.{
  Best, NoneOf, Unbeaten, Best-skip, Best-turn, anyone, select_best-Best, beats_trans_not,
}

module _ (nfc lower : Text → Text) (options : MatchOptions) where
  abbrev pub canonical : Text → Text
  canonical t = normalize_text nfc lower t options

  -- The rules are the specs, parsed and numbered from `index` on.
  abbrev pub Compiled : ℕ → List CompiledRule → List RuleSpec → Type 0
  Compiled index [] [] = Unit
  Compiled index [] (spec ∷ specs) = ⊥
  Compiled index (rule ∷ rules) [] = ⊥
  Compiled index (rule ∷ rules) (spec ∷ specs) =
      (rule.id ≡ spec.id)
      × (spec.priority ≡ some rule.priority)
      × (kind_of spec.kind ≡ some rule.kind)
      × (rule.reply ≡ spec.reply)
      × (rule.config_index ≡ index)
      × (rule.test ≡ build_test nfc lower rule.kind (canonical spec.needle))
      × Compiled (suc index) rules specs

  module _ (t : Text) where
    abbrev exact_hit : CompiledRule → Bool
    exact_hit rule = is_exact rule.kind && rule.test t

    exact_test :
        (rule : CompiledRule) (key : Text)
        → is_exact rule.kind ≡ true
        → rule.test ≡ build_test nfc lower rule.kind key
        → rule.test t ≡ text_beq t key
    unfolding build_test
    exact_test rule key e f = ground (arith, ap (λ (g : Text → Bool). g t) f)

    abbrev put_exact : CompiledRule → Text → List (Text × CompiledRule) → List (Text × CompiledRule)
    put_exact rule key by_text =
        if is_exact rule.kind && beats_best rule (lookup key by_text)
        then insert key rule by_text
        else by_text

    lookup-put_exact :
        (rule : CompiledRule) (key : Text) (by_text : List (Text × CompiledRule))
        → (rule.test t ≡ text_beq t key)
        → is_exact rule.kind ≡ true
        → lookup t (put_exact rule key by_text) ≡ (
            if exact_hit rule && beats_best rule (lookup t by_text)
            then some rule
            else lookup t by_text)
    lookup-put_exact rule key by_text same e = elim (Bool-cases (text_beq t key)) [
      | inl f ↦
          let at : t ≡ key = (text_beq_iff t key).0 f in
          rw (e, same, f, ← at) (ground (arith, lookup-insert t t rule by_text, text_beq_iff t t))
      | inr f ↦
          rw (e, same, f)
            (ground
              (arith, lookup-insert key t rule by_text, text_beq_iff t key, text_beq_iff key t))
    ]

    put_exact-Best :
        (rule : CompiledRule) (key : Text) (seen : List CompiledRule)
        (by_text : List (Text × CompiledRule))
        → (is_exact rule.kind ≡ true → rule.test t ≡ text_beq t key)
        → Best exact_hit seen (lookup t by_text)
        → Best exact_hit (seen ++ rule ∷ []) (lookup t (put_exact rule key by_text))
    put_exact-Best rule key seen by_text same b = elim (Bool-cases (is_exact rule.kind)) [
      | inr e ↦
          let put : put_exact rule key by_text ≡ by_text = rw e in
          rw put (Best-skip exact_hit seen rule (lookup t by_text) (rw e) b)
      | inl e ↦ elim (Bool-cases (exact_hit rule)) [
        | inl h ↦
            rw (lookup-put_exact rule key by_text (same e) e, h)
              (Best-turn exact_hit seen rule (lookup t by_text) h b)
        | inr h ↦
            rw (lookup-put_exact rule key by_text (same e) e, h)
              (Best-skip exact_hit seen rule (lookup t by_text) h b)
      ]
    ]

    -- The index holds, under each text, the best of the exact rules with that text.
    index_exact-Best :
        (index : ℕ) (seen rules : List CompiledRule) (specs : List RuleSpec)
        (by_text : List (Text × CompiledRule))
        → Compiled index rules specs
        → Best exact_hit seen (lookup t by_text)
        → Best exact_hit
            (seen ++ rules)
            (lookup t (index_exact nfc lower options rules specs by_text))
    unfolding index_exact
    index_exact-Best index seen [] [] by_text c b = rw (append-nil seen) b
    index_exact-Best index seen [] (spec ∷ specs) by_text c b = absurd c
    index_exact-Best index seen (rule ∷ rules) [] by_text c b = absurd c
    index_exact-Best index seen (rule ∷ rules) (spec ∷ specs) by_text c b =
        let key = canonical spec.needle in
        rw (← append_assoc seen (rule ∷ []) rules) (
          index_exact-Best (suc index) (seen ++ rule ∷ []) rules specs (put_exact rule key by_text)
            c.6 (put_exact-Best rule key seen by_text (λ e. exact_test rule key e c.5) b))

    abbrev pub passes : CompiledRule → Bool
    passes rule = rule.test t

    abbrev non_exact_of : List CompiledRule → List CompiledRule
    non_exact_of = filter (λ rule. not (is_exact rule.kind))

    abbrev passing : List CompiledRule → List CompiledRule
    passing = filter (λ rule. rule.test t)

    picked :
        (r x : CompiledRule) (rules : List CompiledRule)
        → x.test t ≡ true
        → (In r (passing (non_exact_of rules)) → In r rules × (r.test t ≡ true))
        → In r (x ∷ passing (non_exact_of rules))
        → In r (x ∷ rules) × (r.test t ≡ true)
    picked r x rules f rest (inl e) =
        (inl e, subst (λ (y : CompiledRule). y.test t ≡ true) (sym e) f)
    picked r x rules f rest (inr m) = let (k, p) = rest m in (inr k, p)

    -- A candidate of the scan is a rule that passes.
    passing-In :
        (r : CompiledRule) (rules : List CompiledRule)
        → In r (passing (non_exact_of rules))
        → In r rules × (r.test t ≡ true)
    passing-In r [] m = absurd m
    passing-In r (x ∷ rules) m = elim (Bool-cases (is_exact x.kind)) [
      | inl e ↦ let (k, p) = passing-In r rules (rw e at m) in (inr k, p)
      | inr e ↦ elim (Bool-cases (x.test t)) [
        | inl f ↦ picked r x rules f (passing-In r rules) (rw (e, f) at m)
        | inr f ↦ let (k, p) = passing-In r rules (rw (e, f) at m) in (inr k, p)
      ]
    ]

    -- What no candidate of the scan beats, and no exact rule, no rule beats.
    scan-NoneOf :
        (rules : List CompiledRule)
        → passing (non_exact_of rules) ≡ []
        → NoneOf exact_hit rules
        → NoneOf passes rules
    scan-NoneOf [] e n = tt
    scan-NoneOf (x ∷ rules) e n = elim (Bool-cases (is_exact x.kind)) [
      | inl exact' ↦ (ground arith, scan-NoneOf rules (rw exact' at e) n.1)
      | inr scanned ↦ elim (Bool-cases (x.test t)) [
        | inl f ↦ absurd (ground arith)
        | inr f ↦ (f, scan-NoneOf rules (rw (scanned, f) at e) n.1)
      ]
    ]

    scan-Unbeaten :
        (best : CompiledRule) (rules : List CompiledRule)
        → Unbeaten anyone best (passing (non_exact_of rules))
        → Unbeaten exact_hit best rules
        → Unbeaten passes best rules
    scan-Unbeaten best [] u v = tt
    scan-Unbeaten best (x ∷ rules) u v = elim (Bool-cases (is_exact x.kind)) [
      | inl exact' ↦ (λ p. v.0 (rw (exact', p)), scan-Unbeaten best rules (rw exact' at u) v.1)
      | inr scanned ↦ elim (Bool-cases (x.test t)) [
        | inl f ↦
            let u' : Unbeaten anyone best (x ∷ passing (non_exact_of rules)) =
              rw (scanned, f) at u in
            (λ p. u'.0 refl, scan-Unbeaten best rules u'.1 v.1)
        | inr f ↦ (λ p. cc, scan-Unbeaten best rules (rw (scanned, f) at u) v.1)
      ]
    ]

    Unbeaten-through :
        (hit' best : CompiledRule) (rules : List CompiledRule)
        → beats hit' best ≡ false
        → Unbeaten exact_hit hit' rules
        → Unbeaten exact_hit best rules
    Unbeaten-through hit' best [] h u = tt
    Unbeaten-through hit' best (x ∷ rules) h u =
        (λ p. beats_trans_not x hit' best (u.0 p) h, Unbeaten-through hit' best rules h u.1)

    NoneOf-Unbeaten :
        (best : CompiledRule) (rules : List CompiledRule)
        → NoneOf exact_hit rules
        → Unbeaten exact_hit best rules
    NoneOf-Unbeaten best [] n = tt
    NoneOf-Unbeaten best (x ∷ rules) n = (λ p. cc, NoneOf-Unbeaten best rules n.1)

    exact_hit-passes : (x : CompiledRule) → exact_hit x ≡ true → x.test t ≡ true
    exact_hit-passes x h = ground arith

    no_candidate : (xs : List CompiledRule) → NoneOf anyone xs → xs ≡ []
    no_candidate [] n = refl
    no_candidate (x ∷ xs) n = absurd (ground (arith, n.0))

    chosen :
        (rules : List CompiledRule) (h best : CompiledRule)
        → In h rules × (exact_hit h ≡ true)
        → In best (h ∷ passing (non_exact_of rules))
        → In best rules × (best.test t ≡ true)
    chosen rules h best b (inl e) =
        subst (λ (y : CompiledRule). In y rules × (y.test t ≡ true)) (sym e)
          (b.0, exact_hit-passes h b.1)
    chosen rules h best b (inr m) = passing-In best rules m

    -- A choice among the exact hit and the passing rules of the scan is a choice among all rules.
    candidates-Best :
        (rules : List CompiledRule) (found chosen : Option CompiledRule)
        → Best exact_hit rules found
        → Best anyone (hit found (passing (non_exact_of rules))) chosen
        → Best passes rules chosen
    candidates-Best rules none none b c =
        scan-NoneOf rules (no_candidate (passing (non_exact_of rules)) c) b
    candidates-Best rules (some h) none b c = absurd (ground (arith, c.0))
    candidates-Best rules none (some best) b c =
        let (member, p) = passing-In best rules c.0 in
        (member, p, scan-Unbeaten best rules c.2 (NoneOf-Unbeaten best rules b))
    candidates-Best rules (some h) (some best) b c =
        let (member, p) = chosen rules h best (b.0, b.1) c.0 in
        (member, p, scan-Unbeaten best rules c.2.1 (Unbeaten-through h best rules (c.2.0 refl) b.2))

    -- The decision of a rule set is the best of all rules that pass the text.
    pub decide-Best :
        (index : ℕ) (rules : List CompiledRule) (specs : List RuleSpec)
        → Compiled index rules specs
        → Best passes rules (decide (rule_set nfc lower options rules specs) t)
    unfolding decide rule_set collect_candidates lookup
    decide-Best index rules specs c =
        candidates-Best rules _ _ (index_exact-Best index [] rules specs [] c tt) (
          select_best-Best (
            hit (lookup t (index_exact nfc lower options rules specs []))
              (passing (non_exact_of rules))))
