-- ===== src/Rules/Best.antt =====
-- compile.ts: `beats` orders the rules, and `selectBest` picks one that none beats.
use line_deno_bot.Prelude.{
  ◌≡◌, refl, ◌⊎◌, inl, inr, Bool, true, false, Option, none, some, List, [], ◌∷◌, ◌++◌, arith,
  if◌then◌else◌, Bool-cases, All, In,
}
use mathlib.Core.List.{append-nil, append_assoc}
use line_deno_bot.Rules.{CompiledRule, beats, beats_best, select_best}

-- None of the rules that pass `P` beats `best`.
abbrev pub Unbeaten : (CompiledRule → Bool) → CompiledRule → List CompiledRule → Type 0
Unbeaten P best = All (λ rule. P rule ≡ true → beats rule best ≡ false)

abbrev pub NoneOf : (CompiledRule → Bool) → List CompiledRule → Type 0
NoneOf P = All (λ rule. P rule ≡ false)

-- What a selection among the rules that pass `P` must be.
abbrev pub Best : (CompiledRule → Bool) → List CompiledRule → Option CompiledRule → Type 0
Best P rules none = NoneOf P rules
Best P rules (some best) = In best rules × (P best ≡ true) × Unbeaten P best rules

pub beats_irrefl : (a : CompiledRule) → beats a a ≡ false
unfolding beats
beats_irrefl a = ground arith

-- Who is not beaten by the old best is not beaten by the rule that beats it.
pub beats_cotrans :
    (r old new : CompiledRule) → beats r old ≡ false → beats new old ≡ true → beats r new ≡ false
unfolding beats
beats_cotrans r old new h k = ground arith

pub beats_asym : (a b : CompiledRule) → beats a b ≡ true → beats b a ≡ false
unfolding beats
beats_asym a b h = ground arith

pub Unbeaten-cotrans :
    (P : CompiledRule → Bool) (old new : CompiledRule) (rules : List CompiledRule)
    → beats new old ≡ true
    → Unbeaten P old rules
    → Unbeaten P new rules
Unbeaten-cotrans P old new [] h u = tt
Unbeaten-cotrans P old new (r ∷ rules) h u =
    (λ p. beats_cotrans r old new (u.0 p) h, Unbeaten-cotrans P old new rules h u.1)

-- Adding a rule at the end.
All-snoc :
    (P : CompiledRule → Type 0) (rules : List CompiledRule) (r : CompiledRule)
    → All P rules
    → P r
    → All P (rules ++ r ∷ [])
All-snoc P [] r h p = (p, tt)
All-snoc P (x ∷ rules) r h p = (h.0, All-snoc P rules r h.1 p)

In-snoc :
    (a : CompiledRule) (rules : List CompiledRule) (r : CompiledRule)
    → In a rules ⊎ (a ≡ r)
    → In a (rules ++ r ∷ [])
In-snoc a [] r (inl m) = absurd m
In-snoc a [] r (inr e) = inl e
In-snoc a (x ∷ rules) r (inl (inl e)) = inl e
In-snoc a (x ∷ rules) r (inl (inr m)) = inr (In-snoc a rules r (inl m))
In-snoc a (x ∷ rules) r (inr e) = inr (In-snoc a rules r (inr e))

pub Best-skip :
    (P : CompiledRule → Bool) (rules : List CompiledRule) (r : CompiledRule)
    (o : Option CompiledRule)
    → P r ≡ false
    → Best P rules o
    → Best P (rules ++ r ∷ []) o
Best-skip P rules r none h b = All-snoc _ rules r b h
Best-skip P rules r (some best) h b =
    (In-snoc best rules r (inl b.0), b.1, All-snoc _ rules r b.2 (λ p. cc))

-- One turn of the fold.
pub Best-turn :
    (P : CompiledRule → Bool) (rules : List CompiledRule) (r : CompiledRule)
    (o : Option CompiledRule)
    → P r ≡ true
    → Best P rules o
    → Best P (rules ++ r ∷ []) (if beats_best r o then some r else o)
Best-turn P rules r none h b =
    (In-snoc r rules r (inr refl), h, All-snoc _ rules r (vacuous rules b) (λ p. beats_irrefl r))
  where
    vacuous : (xs : List CompiledRule) → NoneOf P xs → Unbeaten P r xs
    vacuous [] n = tt
    vacuous (x ∷ xs) n = (λ p. cc, vacuous xs n.1)
Best-turn P rules r (some best) h b = elim (Bool-cases (beats r best)) [
  | inl won ↦ rw won (
    In-snoc r rules r (inr refl),
    h,
    All-snoc _ rules r (Unbeaten-cotrans P best r rules won b.2) (λ p. beats_irrefl r),
  )
  | inr lost ↦ rw lost (In-snoc best rules r (inl b.0), b.1, All-snoc _ rules r b.2 (λ p. lost))
]

abbrev pub anyone : CompiledRule → Bool
anyone rule = true

select_best-from :
    (seen rules : List CompiledRule) (o : Option CompiledRule)
    → Best anyone seen o
    → Best anyone (seen ++ rules) (select_best o rules)
unfolding select_best
select_best-from seen [] o b = rw (append-nil seen) b
select_best-from seen (r ∷ rules) o b = rw (← append_assoc seen (r ∷ []) rules) (
    select_best-from (seen ++ r ∷ []) rules (if beats_best r o then some r else o)
      (Best-turn anyone seen r o refl b))

-- The selected candidate is one of the candidates, and none of them beats it.
pub select_best-Best : (rules : List CompiledRule) → Best anyone rules (select_best none rules)
select_best-Best rules = select_best-from [] rules none tt

pub beats_trans_not :
    (a b c : CompiledRule) → beats a b ≡ false → beats b c ≡ false → beats a c ≡ false
unfolding beats
beats_trans_not a b c h k = ground arith
