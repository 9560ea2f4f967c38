-- ===== src/Rules/Compile.antt =====
-- compile.ts: what `compileRules` accepts, and what it makes of it.
use line_deno_bot.Prelude.{
  ℕ, suc, ◌≡◌, refl, inl, inr, false, some, List, [], ◌∷◌, arith, any, Bool-cases, All, ◌↔◌,
}
use line_deno_bot.Prelude.Int.{ℤ}
use line_deno_bot.Prelude.Text.{Text, text_eq, text_beq}
use line_deno_bot.Rules.{
  MatchKind, CompiledRule, RuleSpec, MatchOptions, CompiledRuleSet, kind_of, build_test, Result, ok,
  err, assert_unique_id, assert_valid_spec, compile_one, compile_from, compile_rules, rule_set,
  is_empty, ◌>>=◌,
}
use line_deno_bot.Rules.Index.{Compiled, canonical}

-- A rule that `assertValidSpec` lets pass.
pub record IsWellFormed (s : RuleSpec) : Type 0 where
  pub id_given : is_empty s.id ≡ false
  pub integral : (p : ℤ) × (s.priority ≡ some p)
  pub known : (k : MatchKind) × (kind_of s.kind ≡ some k)
  pub reply_given : is_empty s.reply ≡ false
  pub needle_given : is_empty s.needle ≡ false

-- No id stands twice, nor among the ids seen before.
abbrev pub FreshIds : List Text → List RuleSpec → Type 0
FreshIds seen [] = Unit
FreshIds seen (s ∷ specs) = (any (text_beq s.id) seen ≡ false) × FreshIds (s.id ∷ seen) specs

-- A chain that succeeds has a first step that succeeds.
first_step :
    {A B : Type 0} {end : B} (m : Result A) (next : A → Result B)
    → (m >>= next) ≡ ok end
    → (start : A) × (next start ≡ ok end) × (m ≡ ok start)
first_step (ok start) next same = (start, same, refl)
first_step (err reason) next same = absurd (ground (arith, same))

module _ (nfc lower : Text → Text) (options : MatchOptions) where
  compile_one-ok :
      (s : RuleSpec) (index : ℕ) (r : CompiledRule)
      → compile_one nfc lower s index options ≡ ok r
      → IsWellFormed s
        × (r.id ≡ s.id)
        × (s.priority ≡ some r.priority)
        × (kind_of s.kind ≡ some r.kind)
        × (r.reply ≡ s.reply)
        × (r.config_index ≡ index)
        × (r.test ≡ build_test nfc lower r.kind (canonical nfc lower options s.needle))
  unfolding compile_one assert_valid_spec
  compile_one-ok s index r e = (
    record {
      id_given = ground arith;
      integral = (r.priority, ground arith);
      known = (r.kind, ground arith);
      reply_given = ground arith;
      needle_given = ground arith;
    },
    ground arith,
    ground arith,
    ground arith,
    ground arith,
    ground arith,
    ground arith,
  )

  compile_one_complete :
      (s : RuleSpec) (index : ℕ)
      → IsWellFormed s
      → (r : CompiledRule) × (compile_one nfc lower s index options ≡ ok r)
  unfolding compile_one assert_valid_spec
  compile_one_complete s index w = (
    record {
      id = s.id;
      priority = w.integral.0;
      kind = w.known.0;
      reply = s.reply;
      config_index = index;
      test = build_test nfc lower w.known.0 (canonical nfc lower options s.needle);
    },
    rw (w.id_given, w.integral.1, w.known.1, w.reply_given, w.needle_given),
  )

  pub compile_from-ok :
      (specs : List RuleSpec) (index : ℕ) (seen : List Text) (rules : List CompiledRule)
      → compile_from nfc lower options index seen specs ≡ ok rules
      → Compiled nfc lower options index rules specs × FreshIds seen specs × All IsWellFormed specs
  unfolding compile_from assert_unique_id
  compile_from-ok [] index seen [] e = (tt, tt, tt)
  compile_from-ok [] index seen (r ∷ rules) e = absurd (ground arith)
  compile_from-ok (s ∷ specs) index seen rules e = elim (Bool-cases (any (text_beq s.id) seen)) [
    | inl old ↦ absurd (ground arith)
    | inr new ↦
        let (r, e', one) = first_step (compile_one nfc lower s index options) _ (rw new at e) in
        let (rest, e'', more) =
          first_step (compile_from nfc lower options (suc index) (s.id ∷ seen) specs) _ e' in
        let (w, i, p, k, y, c, t) = compile_one-ok s index r one in
        let (compiled, fresh, formed) = compile_from-ok specs (suc index) (s.id ∷ seen) rest more in
        let whole : rules ≡ r ∷ rest = cc in
        (rw whole (i, p, k, y, c, t, compiled), (new, fresh), (w, formed))
  ]

  compile_from_complete :
      (specs : List RuleSpec) (index : ℕ) (seen : List Text)
      → FreshIds seen specs
      → All IsWellFormed specs
      → (rules : List CompiledRule) × (compile_from nfc lower options index seen specs ≡ ok rules)
  unfolding compile_from assert_unique_id
  compile_from_complete [] index seen f w = ([], refl)
  compile_from_complete (s ∷ specs) index seen f w =
      let (r, one) = compile_one_complete s index w.0 in
      let (rules, more) = compile_from_complete specs (suc index) (s.id ∷ seen) f.1 w.1 in
      (r ∷ rules, rw (f.0, one, more))

  -- A list of rules compiles exactly when its ids differ and every rule is well formed.
  pub compile_rules-ok :
      (specs : List RuleSpec)
      → ((set : CompiledRuleSet) × (compile_rules nfc lower options specs ≡ ok set))
        ↔ (FreshIds [] specs × All IsWellFormed specs)
  unfolding compile_rules
  compile_rules-ok specs = (accepted, compiles)
    where
      accepted :
          (set : CompiledRuleSet) × (compile_rules nfc lower options specs ≡ ok set)
          → FreshIds [] specs × All IsWellFormed specs
      accepted (set, e) =
          let (rules, _, done) = first_step (compile_from nfc lower options 0 [] specs) _ e in
          let (_, fresh, formed) = compile_from-ok specs 0 [] rules done in (fresh, formed)

      compiles :
          FreshIds [] specs × All IsWellFormed specs
          → (set : CompiledRuleSet) × (compile_rules nfc lower options specs ≡ ok set)
      compiles (f, w) =
          let (rules, done) = compile_from_complete specs 0 [] f w in
          (rule_set nfc lower options rules specs, rw done)
