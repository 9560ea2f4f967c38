-- ===== src/Rules.antt =====
-- apps/worker/src/core/rules: the author's rules (types.ts), the canonical form of a text
-- (normalize.ts), and a compiled rule set with its cache of decisions (compile.ts).
--
-- `String.prototype.normalize` and `toLowerCase` are the platform's Unicode tables, so they are the
-- parameters `nfc` and `lower`.
pub mod Samples
mod Tests
pub mod Best
pub mod Index
pub mod Compile
pub mod Cache
use line_deno_bot.Prelude.{
  ℕ, zero, suc, ◌+◌, Bool, true, false, not, ◌&&◌, ◌||◌, Option, none, some, List, [], ◌∷◌,
  if◌then◌else◌, ltb, leb, length, tail, any, filter,
}
use line_deno_bot.Prelude.Int.{ℤ, ltb_ℤ, eqb_ℤ}
use line_deno_bot.Prelude.Text.{
  Text, text, text_eq, text_beq, starts_with, includes, is_space, trim,
}
use line_deno_bot.Prelude.Dict.{lookup, insert, delete}

pub data MatchKind : Type 0 where
  exact prefix contains : MatchKind

-- A rule as the configuration holds it: the kind is any text, and `priority` is `none` for a number
-- that is no integer.
pub record RuleSpec : Type 0 where
  pub id : Text
  pub priority : Option ℤ
  pub kind : Text
  pub needle : Text
  pub reply : Text

pub record MatchOptions : Type 0 where
  pub case_sensitive : Bool
  pub trim_ends : Bool
  pub collapse_whitespace : Bool

abbrev pub default_match_options : MatchOptions
default_match_options = record {
  case_sensitive = false;
  trim_ends = true;
  collapse_whitespace = false;
}

pub record CompiledRule : Type 0 where
  pub id : Text
  pub priority : ℤ
  pub kind : MatchKind
  pub reply : Text
  pub config_index : ℕ
  pub test : Text → Bool

-- `MATCH_KINDS.includes`, with the kind that is meant.
unfoldable pub kind_of : Text → Option MatchKind
kind_of k =
    if text_beq k (text "exact")
    then some exact
    else if text_beq k (text "prefix")
    then some prefix
    else if text_beq k (text "contains")
    then some contains
    else none

-- Each maximal run of white space becomes one space.
collapse : Bool → Text → Text
unfolding is_space
collapse in_run [] = []
collapse in_run (c ∷ s) =
    let rest = collapse (is_space c) s in
    if is_space c then (if in_run then rest else 32 ∷ rest) else c ∷ rest

pub data RuleError : Type 0 where
  duplicate_rule_id empty_id priority_not_integer unknown_kind empty_reply empty_pattern : RuleError

pub data Result (A : Type 0) : Type 0 where
  ok : A → Result A
  err : RuleError → Result A

infixl 5 ◌>>=◌ ◌>>◌
abbrev pub ◌>>=◌ : {A B : Type 0} → Result A → (A → Result B) → Result B
ok value >>= next = next value
err reason >>= next = err reason

abbrev pub ◌>>◌ : {B : Type 0} → Result (Unit {0}) → Result B → Result B
first >> second = first >>= λ _. second

abbrev or_fail : {A : Type 0} → Option A → RuleError → Result A
or_fail none e = err e
or_fail (some a) e = ok a

abbrev pub is_empty : Text → Bool
is_empty [] = true
is_empty (c ∷ s) = false

abbrev fail_if : Bool → RuleError → Result (Unit {0})
fail_if true e = err e
fail_if false e = ok tt

-- `assertUniqueId`: the ids seen, with this one.
assert_unique_id : Text → List Text → Result (List Text)
assert_unique_id id seen = if any (text_beq id) seen then err duplicate_rule_id else ok (id ∷ seen)

-- `assertValidSpec`, in the order of its tests; it returns the parsed priority and kind.
assert_valid_spec : RuleSpec → Result (ℤ × MatchKind)
assert_valid_spec spec = do
  fail_if (is_empty spec.id) empty_id
  priority ← or_fail spec.priority priority_not_integer
  kind ← or_fail (kind_of spec.kind) unknown_kind
  fail_if (is_empty spec.reply) empty_reply
  fail_if (is_empty spec.needle) empty_pattern
  ok (priority, kind)

-- Higher priority wins; ties go to the earlier rule in config order.
unfoldable pub beats : CompiledRule → CompiledRule → Bool
beats a b =
    ltb_ℤ b.priority a.priority
    || (eqb_ℤ a.priority b.priority && ltb a.config_index b.config_index)

abbrev pub beats_best : CompiledRule → Option CompiledRule → Bool
beats_best rule none = true
beats_best rule (some best) = beats rule best

unfoldable pub select_best : Option CompiledRule → List CompiledRule → Option CompiledRule
select_best best [] = best
select_best best (rule ∷ rules) =
    select_best (if beats_best rule best then some rule else best) rules

abbrev pub is_exact : MatchKind → Bool
is_exact exact = true
is_exact prefix = false
is_exact contains = false

abbrev pub match_cache_max_entries : ℕ
match_cache_max_entries = 500

unfoldable pub remember_match :
    Text
    → Option CompiledRule
    → List (Text × Option CompiledRule)
    → List (Text × Option CompiledRule)
remember_match text rule cache =
    let kept = if leb match_cache_max_entries (length cache) then tail cache else cache in
    insert text rule kept

pub record CompiledRuleSet : Type 0 where
  pub options : MatchOptions
  pub exact_index : List (Text × CompiledRule)
  pub non_exact : List CompiledRule
  pub size : ℕ
  pub cache : List (Text × Option CompiledRule)

abbrev hit : Option CompiledRule → List CompiledRule → List CompiledRule
hit none rules = rules
hit (some rule) rules = rule ∷ rules

unfoldable pub collect_candidates :
    Text → List (Text × CompiledRule) → List CompiledRule → List CompiledRule
collect_candidates text by_text non_exact =
    hit (lookup text by_text) (filter (λ rule. rule.test text) non_exact)

-- The decision for a normalized text, with no cache.
unfoldable pub decide : CompiledRuleSet → Text → Option CompiledRule
unfolding collect_candidates select_best
decide set text = select_best none (collect_candidates text set.exact_index set.non_exact)

-- `specs[index]?.pattern ?? ''`, for the list of the specs from `index` on.
abbrev pub first_pattern : List RuleSpec → Text
first_pattern [] = []
first_pattern (spec ∷ specs) = spec.needle

module _ (nfc lower : Text → Text) where
  unfoldable pub normalize_text : Text → MatchOptions → Text
  unfolding collapse trim
  normalize_text input options =
      let text = nfc input in
      let text = if options.case_sensitive then text else lower text in
      let text = if options.collapse_whitespace then collapse false text else text in
      if options.trim_ends then trim text else text

  unfoldable pub build_test : MatchKind → Text → Text → Bool
  build_test prefix needle text = starts_with text needle
  build_test contains needle text = includes text needle
  build_test exact needle text = text_beq text needle

  unfoldable pub compile_one : RuleSpec → ℕ → MatchOptions → Result CompiledRule
  unfolding assert_valid_spec build_test
  compile_one spec index options = do
    (priority, kind) ← assert_valid_spec spec
    ok (record {
      id = spec.id;
      priority = priority;
      kind = kind;
      reply = spec.reply;
      config_index = index;
      test = build_test kind (normalize_text spec.needle options);
    })

  -- The body of `specs.map`, which throws at the first malformed rule.
  unfoldable pub compile_from :
      MatchOptions → ℕ → List Text → List RuleSpec → Result (List CompiledRule)
  unfolding assert_unique_id compile_one
  compile_from options index seen [] = ok []
  compile_from options index seen (spec ∷ specs) = do
    seen' ← assert_unique_id spec.id seen
    rule ← compile_one spec index options
    rules ← compile_from options (suc index) seen' specs
    ok (rule ∷ rules)

  unfoldable pub index_exact :
      MatchOptions
      → List CompiledRule
      → List RuleSpec
      → List (Text × CompiledRule)
      → List (Text × CompiledRule)
  index_exact options [] specs by_text = by_text
  index_exact options (rule ∷ rules) specs by_text =
      let key = normalize_text (first_pattern specs) options in
      let replaces = is_exact rule.kind && beats_best rule (lookup key by_text) in
      index_exact options rules (tail specs) (if replaces then insert key rule by_text else by_text)

  unfoldable pub rule_set : MatchOptions → List CompiledRule → List RuleSpec → CompiledRuleSet
  unfolding index_exact
  rule_set options compiled specs = record {
    options = options;
    exact_index = index_exact options compiled specs [];
    non_exact = filter (λ rule. not (is_exact rule.kind)) compiled;
    size = length compiled;
    cache = [];
  }

  unfoldable pub compile_rules : MatchOptions → List RuleSpec → Result CompiledRuleSet
  unfolding compile_from rule_set
  compile_rules options specs = do
    compiled ← compile_from options 0 [] specs
    ok (rule_set options compiled specs)

  remembered :
      CompiledRuleSet → Text → Option (Option CompiledRule) → CompiledRuleSet × Option CompiledRule
  remembered set text (some cached) = (set, cached)
  remembered set text none =
      let matched = decide set text in
      (record set { cache = remember_match text matched set.cache }, matched)

  unfoldable pub match_text : CompiledRuleSet → Text → CompiledRuleSet × Option CompiledRule
  unfolding remembered
  match_text set raw_text =
      let text = normalize_text raw_text set.options in remembered set text (lookup text set.cache)
