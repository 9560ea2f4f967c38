-- ===== src/Experiments/Conflicts.antt =====
-- registry.ts: no two experiments that are on conflict, and no more are on than the ceiling.
use line_deno_bot.Prelude.{
  ℕ, ◌≤◌, ◌≡◌, ◌≢◌, ◌⊎◌, refl, sym, ap, subst, ◌∙◌, Bool, true, false, ◌||◌, none, some, inl, inr,
  List, [], ◌∷◌, arith, if◌then◌else◌, if-cases, Bool-cases, get_or, filter,
}
use line_deno_bot.Prelude.Text.{Text, text_beq, text_beq_iff, text_eq}
use line_deno_bot.Prelude.Dict.{lookup, insert, lookup-insert}
use line_deno_bot.Experiments.Registry.{
  Entry, ExperimentDefinition, ExperimentRegistry, is_active, is_active_entry, active,
  conflict_with, conflict_on, lists, written,
}
use line_deno_bot.Experiments.Active.{
  Call, step, run, has_bare_adoption, count_on, count_on-insert, Change, same, quiet, begun,
  step-Change,
}

-- Whatever two different experiments are on, neither lists the other.
pub record IsSafe (ceiling : ℕ) (r : ExperimentRegistry) : Type 0 where
  pub bounded : count_on r.entries ≤ ceiling
  pub ceiling_kept : r.max_concurrent ≡ ceiling
  pub apart :
      (a b : Text) (x y : Entry)
      → lookup a r.entries ≡ some x
      → lookup b r.entries ≡ some y
      → is_active x.state ≡ true
      → is_active y.state ≡ true
      → a ≢ b
      → conflict_with x.definition y.definition ≡ false

conflict_with_comm : (x y : ExperimentDefinition) → conflict_with x y ≡ conflict_with y x
conflict_with_comm x y = comm (lists x y.id) (lists y x.id)
  where
    comm : (a b : Bool) → (a || b) ≡ (b || a)
    comm true true = refl
    comm true false = refl
    comm false true = refl
    comm false false = refl

conflict_on-none :
    (d : ExperimentDefinition) (entries : List (Text × Entry)) (a : Text) (x : Entry)
    → conflict_on d (filter is_active_entry entries) ≡ none
    → lookup a entries ≡ some x
    → is_active x.state ≡ true
    → conflict_with d x.definition ≡ false
unfolding conflict_on lookup
conflict_on-none d [] a x free e on = absurd (ground (arith, e))
conflict_on-none d ((k, z) ∷ rest) a x free e on =
    if-cases (λ l. conflict_on d l ≡ none → conflict_with d x.definition ≡ false)
      (is_active z.state) ((k, z) ∷ filter is_active_entry rest) (filter is_active_entry rest)
      (λ h f. elim (Bool-cases (conflict_with d z.definition)) [
        | inl c ↦ absurd (
            clash (
              subst
                (λ b.
                  (if b then some z.definition.id else conflict_on d (filter is_active_entry rest))
                  ≡ none)
                c f))
        | inr c ↦
            let f' =
              subst
                (λ b.
                  (if b then some z.definition.id else conflict_on d (filter is_active_entry rest))
                  ≡ none)
                c f in
            elim (Bool-cases (text_beq k a)) [
              | inl i ↦
                  let e' : some z ≡ some x =
                    subst (λ b. (if b then some z else lookup a rest) ≡ some x) i e in
                  ap (λ o. conflict_with d (get_or o z).definition) (sym e') ∙ c
              | inr i ↦
                  conflict_on-none d rest a x f'
                    (subst (λ b. (if b then some z else lookup a rest) ≡ some x) i e) on
            ]
      ])
      (λ h f. elim (Bool-cases (text_beq k a)) [
        | inl i ↦
            let e' : some z ≡ some x =
              subst (λ b. (if b then some z else lookup a rest) ≡ some x) i e in
            let off : is_active z.state ≡ is_active x.state =
              ap (λ o. is_active (get_or o z).state) e' in
            absurd (ground (arith, off, h, on))
        | inr i ↦
            conflict_on-none d rest a x f
              (subst (λ b. (if b then some z else lookup a rest) ≡ some x) i e) on
      ])
      free
  where
    clash : {A : Type 0} {v : A} → some v ≡ none → ⊥
    clash e = ground (arith, e)

-- An entry after a write is the new one, or was there before.
written-lookup :
    (id a : Text) (new x : Entry) (r : ExperimentRegistry)
    → lookup a (written id new r).entries ≡ some x
    → ((a ≡ id) × (x ≡ new)) ⊎ (lookup a r.entries ≡ some x)
written-lookup id a new x r e =
    let e' : (if text_beq id a then some new else lookup a r.entries) ≡ some x =
      sym (lookup-insert id a new r.entries) ∙ e in
    elim (Bool-cases (text_beq id a)) [
      | inl i ↦
          let hit : some new ≡ some x =
            subst (λ b. (if b then some new else lookup a r.entries) ≡ some x) i e' in
          inl (ground (arith, text_beq_iff id a, i), ap (λ o. get_or o x) (sym hit))
      | inr i ↦ inr (subst (λ b. (if b then some new else lookup a r.entries) ≡ some x) i e')
    ]

-- What a write keeps, when the new entry is apart from those that are on.
write-IsSafe :
    (ceiling : ℕ) (id : Text) (old new : Entry) (r : ExperimentRegistry)
    → IsSafe ceiling r
    → lookup id r.entries ≡ some old
    → count_on (insert id new r.entries) ≤ ceiling
    → ((b : Text) (y : Entry)
        → lookup b r.entries ≡ some y
        → is_active y.state ≡ true
        → is_active new.state ≡ true
        → id ≢ b
        → conflict_with new.definition y.definition ≡ false)
    → IsSafe ceiling (written id new r)
write-IsSafe ceiling id old new r h e room alone = record {
  bounded = room;
  ceiling_kept = h.ceiling_kept;
  apart = λ a b x y ex ey on on' ne. elim (written-lookup id a new x r ex) [
    | inl (i, s) ↦ elim (written-lookup id b new y r ey) [
      | inl (j, s') ↦ absurd (ne (i ∙ sym j))
      | inr ey' ↦
          ap (λ z. conflict_with z.definition y.definition) s
          ∙ alone b y ey' on' (sym (ap (λ z. is_active z.state) s) ∙ on) (λ k. ne (i ∙ k))
    ]
    | inr ex' ↦ elim (written-lookup id b new y r ey) [
      | inl (j, s') ↦
          ap (λ z. conflict_with x.definition z.definition) s'
          ∙ conflict_with_comm x.definition new.definition
          ∙ alone a x ex' on (sym (ap (λ z. is_active z.state) s') ∙ on') (λ k. ne (sym (j ∙ k)))
      | inr ey' ↦ h.apart a b x y ex' ey' on on' ne
    ]
  ];
}

Change-IsSafe :
    (ceiling : ℕ) (r r' : ExperimentRegistry) → IsSafe ceiling r → Change r r' → IsSafe ceiling r'
unfolding active
Change-IsSafe ceiling r r' h (same e) = subst (IsSafe ceiling) (sym e) h
Change-IsSafe ceiling r r' h (quiet id old new e w d stays) =
    let n = count_on-insert id old new r.entries e in
    let b = h.bounded in
    subst (IsSafe ceiling) (sym w) (
      write-IsSafe ceiling id old new r h e (ground (arith, n, b, stays)) (λ a y ey on on' ne.
        ap (λ z. conflict_with z y.definition) d ∙ h.apart id a old y e ey (stays on') on ne))
Change-IsSafe ceiling r r' h (begun id old new e w d off free room) =
    let n = count_on-insert id old new r.entries e in
    let m = h.ceiling_kept in
    subst (IsSafe ceiling) (sym w) (
      write-IsSafe ceiling id old new r h e (ground (arith, n, m, off, room)) (λ a y ey on on' ne.
        ap (λ z. conflict_with z y.definition) d
        ∙ conflict_on-none old.definition r.entries a y free ey on))

pub run-IsSafe :
    (ceiling : ℕ) (calls : List Call) (r : ExperimentRegistry)
    → has_bare_adoption calls r ≡ false
    → IsSafe ceiling r
    → IsSafe ceiling (run calls r)
unfolding run has_bare_adoption
run-IsSafe ceiling [] r fair h = h
run-IsSafe ceiling (c ∷ calls) r fair h =
    run-IsSafe ceiling calls (step c r) (ground (arith, fair))
      (Change-IsSafe ceiling r (step c r) h (step-Change c r (ground (arith, fair))))
