-- ===== src/Rules/Samples.antt =====
-- Two rules, compiled without any normalization of letters.
use line_deno_bot.Prelude.{◌≡◌, refl, some, List, [], ◌∷◌}
use line_deno_bot.Prelude.Int.{pos}
use line_deno_bot.Prelude.Text.{Text, text, text_eq}
use line_deno_bot.Rules.{
  exact, contains, RuleSpec, CompiledRule, default_match_options, build_test, compile_from, ok,
  normalize_text, kind_of,
}

abbrev pub same : Text → Text
same t = t

abbrev pub specs : List RuleSpec
specs =
    record {
      id = text "a";
      priority = some (pos 1);
      kind = text "contains";
      needle = text "i";
      reply = text "x";
    }
    ∷ record {
      id = text "b";
      priority = some (pos 2);
      kind = text "exact";
      needle = text "hi";
      reply = text "y";
    }
    ∷ []

abbrev pub rules : List CompiledRule
rules =
    record {
      id = text "a";
      priority = pos 1;
      kind = contains;
      reply = text "x";
      config_index = 0;
      test =
          build_test same same contains (normalize_text same same (text "i") default_match_options);
    }
    ∷ record {
      id = text "b";
      priority = pos 2;
      kind = exact;
      reply = text "y";
      config_index = 1;
      test =
          build_test same same exact (normalize_text same same (text "hi") default_match_options);
    }
    ∷ []

pub specs_compile : compile_from same same default_match_options 0 [] specs ≡ ok rules
unfolding compile_from kind_of
specs_compile = refl
