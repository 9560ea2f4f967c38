-- ===== src/Rules/Tests.antt =====
-- Runs of the rule engine on small inputs.
use line_deno_bot.Prelude.{◌≤◌, ◌≡◌, ◌↔◌, [], ◌∷◌, All, length}
use line_deno_bot.Prelude.Text.{text, text_eq}
use line_deno_bot.Rules.{
  CompiledRuleSet, default_match_options, compile_rules, match_text, rule_set, ok,
  match_cache_max_entries,
}
use line_deno_bot.Rules.Best.{Best}
use line_deno_bot.Rules.Index.{passes, canonical}
use line_deno_bot.Rules.Compile.{FreshIds, IsWellFormed, compile_rules-ok}
use line_deno_bot.Rules.Cache.{matched, match_text-Best}
use line_deno_bot.Rules.Samples.{same, specs, rules, specs_compile}

match_text-Best_example :
    let set =
      matched same same (rule_set same same default_match_options rules specs) (text "hi" ∷ []) in
    Best
      (passes same same default_match_options
        (canonical same same default_match_options (text "hi")))
      rules
      (match_text same same set (text "hi")).1
    × (length (match_text same same set (text "hi")).0.cache ≤ match_cache_max_entries)
match_text-Best_example =
    match_text-Best same same default_match_options specs rules (text "hi" ∷ []) (text "hi")
      specs_compile

compile_rules-ok_example :
    ((set : CompiledRuleSet) × (compile_rules same same default_match_options specs ≡ ok set))
    ↔ (FreshIds [] specs × All IsWellFormed specs)
compile_rules-ok_example = compile_rules-ok same same default_match_options specs
