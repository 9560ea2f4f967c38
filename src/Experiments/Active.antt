-- ===== src/Experiments/Active.antt =====
-- registry.ts: how many experiments are on after a run of calls.
use line_deno_bot.Prelude.{
  ℕ, ◌+◌, ◌≡◌, refl, ap, subst, Bool, true, false, not, ◌&&◌, ◌||◌, Option, none, some, inl, inr,
  List, [], ◌∷◌, arith, if◌then◌else◌, if-cases, Bool-cases, leb, ltb, get_or, length, filter,
}
use line_deno_bot.Prelude.Text.{Text, text, text_beq, text_eq}
use line_deno_bot.Prelude.Dict.{lookup, insert}
use line_deno_bot.Experiments.Registry.{
  Entry, running, adopted, rejected, blocked, ExperimentRegistry, Answer, is_active,
  is_active_entry, active, is_on_entry, is_on, conflict_on, written, started, start_entry, start,
  Detail, is_no_evidence, conclude_entry, conclude, rollback_entry, rollback, block_entry, block,
}

pub data Call : Type 0 where
  starts : Text → Bool → Call
  concludes : Text → Bool → Detail → Call
  rolls_back blocks : Text → Text → Call

unfoldable pub step : Call → ExperimentRegistry → ExperimentRegistry
step (starts id confirmed) r = (start id confirmed r).0
step (concludes id adopt detail) r = (conclude id adopt detail r).0
step (rolls_back id note) r = (rollback id note r).0
step (blocks id note) r = (block id note r).0

unfoldable pub run : List Call → ExperimentRegistry → ExperimentRegistry
unfolding step
run [] r = r
run (c ∷ calls) r = run calls (step c r)

-- A verdict of adoption on an experiment that is not on.
abbrev pub is_bare_adoption : Call → ExperimentRegistry → Bool
is_bare_adoption (concludes id adopt detail) r = adopt && not (is_on id r)
is_bare_adoption _ r = false

unfoldable pub has_bare_adoption : List Call → ExperimentRegistry → Bool
unfolding step is_on
has_bare_adoption [] r = false
has_bare_adoption (c ∷ calls) r = is_bare_adoption c r || has_bare_adoption calls (step c r)

abbrev pub unit : Bool → ℕ
unit true = 1
unit false = 0

abbrev pub count_on : List (Text × Entry) → ℕ
count_on entries = length (filter is_active_entry entries)

pub count_on-insert :
    (id : Text) (old new : Entry) (entries : List (Text × Entry))
    → lookup id entries ≡ some old
    → count_on (insert id new entries) + unit (is_active old.state)
      ≡ count_on entries + unit (is_active new.state)
unfolding lookup insert
count_on-insert id old new [] h = absurd (ground (arith, h))
count_on-insert id old new ((k, x) ∷ rest) h = elim (Bool-cases (text_beq k id)) [
  | inl e ↦
      let h' : some x ≡ some old =
        subst (λ b. (if b then some x else lookup id rest) ≡ some old) e h in
      let same : is_active x.state ≡ is_active old.state =
        ap (λ o. is_active (get_or o x).state) h' in
      rw e (ground (arith, same))
  | inr e ↦
      let h' : lookup id rest ≡ some old =
        subst (λ b. (if b then some x else lookup id rest) ≡ some old) e h in
      rw e (ground (arith, count_on-insert id old new rest h'))
]

-- What a call does to the registry: nothing, or it writes one entry, which is on afterwards only if it was
-- before or if a start has found room for it and no conflict.
pub data Change (r : ExperimentRegistry) (r' : ExperimentRegistry) : Type 0 where
  same : r' ≡ r → Change r r'
  quiet :
      (id : Text) (old new : Entry)
      → lookup id r.entries ≡ some old
      → r' ≡ written id new r
      → new.definition ≡ old.definition
      → (is_active new.state ≡ true → is_active old.state ≡ true)
      → Change r r'
  begun :
      (id : Text) (old new : Entry)
      → lookup id r.entries ≡ some old
      → r' ≡ written id new r
      → new.definition ≡ old.definition
      → is_active old.state ≡ false
      → conflict_on old.definition (active r) ≡ none
      → leb r.max_concurrent (length (active r)) ≡ false
      → Change r r'

start-Change :
    (id : Text) (confirmed : Bool) (r : ExperimentRegistry) → Change r (start id confirmed r).0
unfolding start active
start-Change id confirmed r = entered (lookup id r.entries) refl
  where
    room :
        (entry : Entry)
        → lookup id r.entries ≡ some entry
        → is_active entry.state ≡ false
        → (o : Option Text) → conflict_on entry.definition (active r) ≡ o
        → Change r (started id entry r o).0
    room entry e off (some blocker) c = same refl
    room entry e off none c =
        if-cases (λ (a : ExperimentRegistry × Answer Entry). Change r a.0)
          (leb r.max_concurrent (length (active r))) _ _ (λ h. same refl)
          (λ h.
            begun id entry (record entry { state = running; note = text "collecting samples" }) e
              refl refl off c h)

    entered :
        (o : Option Entry) → lookup id r.entries ≡ o → Change r (start_entry id confirmed r o).0
    entered none e = same refl
    entered (some entry) e =
        if-cases (λ (a : ExperimentRegistry × Answer Entry). Change r a.0) (is_active entry.state) _
          _ (λ h. same refl)
          (λ h.
            if-cases (λ (a : ExperimentRegistry × Answer Entry). Change r a.0)
              (entry.definition.requires_host_control && not confirmed) _ _ (λ h'. same refl)
              (λ h'. room entry e h (conflict_on entry.definition (active r)) refl))

conclude-Change :
    (id : Text) (adopt : Bool) (detail : Detail) (r : ExperimentRegistry)
    → (adopt && not (is_on id r)) ≡ false
    → Change r (conclude id adopt detail r).0
unfolding conclude is_on
conclude-Change id adopt detail r fair = entered (lookup id r.entries) refl
  where
    P : ExperimentRegistry × Answer Entry → Type 0
    P a = Change r a.0

    entered :
        (o : Option Entry)
        → lookup id r.entries ≡ o
        → Change r (conclude_entry id adopt detail r o).0
    entered none e = same refl
    entered (some entry) e =
        let on : is_on id r ≡ is_active entry.state = ap is_on_entry e in
        if-cases P (not adopt) _ _
          (λ h.
            quiet id entry
              (record entry { state = rejected; note = detail.note; evidence = detail.evidence }) e
              refl refl (λ k. absurd (ground (arith, k))))
          (λ h.
            if-cases P (is_no_evidence detail.evidence) _ _ (λ h'. same refl)
              (λ h'.
                if-cases P (ltb (get_or detail.samples 0) entry.definition.min_samples) _ _
                  (λ k. same refl)
                  (λ k.
                    quiet id entry
                      (record entry {
                        state = adopted;
                        note = detail.note;
                        evidence = detail.evidence;
                      })
                      e refl refl (λ k'. ground (arith, on, fair, h)))))

pub step-Change :
    (c : Call) (r : ExperimentRegistry) → is_bare_adoption c r ≡ false → Change r (step c r)
unfolding step rollback block
step-Change (starts id confirmed) r fair = start-Change id confirmed r
step-Change (concludes id adopt detail) r fair = conclude-Change id adopt detail r fair
step-Change (rolls_back id note) r fair = entered (lookup id r.entries) refl
  where
    entered : (o : Option Entry) → lookup id r.entries ≡ o → Change r (rollback_entry id note r o).0
    entered none e = same refl
    entered (some entry) e =
        quiet id entry (record entry { state = rejected; note = note }) e refl refl
          (λ k. absurd (ground (arith, k)))
step-Change (blocks id note) r fair = entered (lookup id r.entries) refl
  where
    entered : (o : Option Entry) → lookup id r.entries ≡ o → Change r (block_entry id note r o).0
    entered none e = same refl
    entered (some entry) e =
        quiet id entry (record entry { state = blocked; note = note }) e refl refl
          (λ k. absurd (ground (arith, k)))
