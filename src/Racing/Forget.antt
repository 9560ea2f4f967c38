-- ===== src/Racing/Forget.antt =====
-- racing.ts: the ids that the race has seen are a claim store, when the source of each is forgotten.
use line_deno_bot.Prelude.{
  ℕ, suc, ◌+◌, ◌≡◌, refl, ap, ◌∙◌, Bool, false, Option, none, some, List, [], ◌∷◌, if◌then◌else◌,
  if-cases, length, tail, leb, ltb, is_some,
}
use line_deno_bot.Prelude.Text.{Text, text_beq, text_eq}
use line_deno_bot.Prelude.Dict.{lookup, insert, delete}
use line_deno_bot.Store.{Entry, BoundedTtlMap, live, has, set, evict_oldest, live_entry}
use line_deno_bot.Claims.{ClaimStore}

abbrev flag : {W : Type 0} → BoundedTtlMap W × Option (Entry W) → BoundedTtlMap W × Bool
flag r = (r.0, is_some r.1)

module _ {V : Type 0} where
  abbrev pub forget_entry : Entry V → Entry (Unit {0})
  forget_entry e = record { value = tt; expires_at = e.expires_at }

  abbrev pub forget_entries : List (Text × Entry V) → List (Text × Entry (Unit {0}))
  forget_entries [] = []
  forget_entries ((k, e) ∷ es) = (k, forget_entry e) ∷ forget_entries es

  abbrev pub forget : BoundedTtlMap V → ClaimStore
  forget m = record {
    entries = forget_entries m.entries;
    ttl_ms = m.ttl_ms;
    max_entries = m.max_entries;
  }

  abbrev forget_option : Option (Entry V) → Option (Entry (Unit {0}))
  forget_option none = none
  forget_option (some e) = some (forget_entry e)

  pub lookup-forget :
      (k : Text) (es : List (Text × Entry V))
      → lookup k (forget_entries es) ≡ forget_option (lookup k es)
  unfolding lookup
  lookup-forget k [] = refl
  lookup-forget k ((j, e) ∷ es) =
      if-cases
        (λ o.
          (if text_beq j k then some (forget_entry e) else lookup k (forget_entries es))
          ≡ forget_option o)
        (text_beq j k) (some e) (lookup k es) (λ h. rw h refl) (λ h. rw h (lookup-forget k es))

  delete-forget :
      (k : Text) (es : List (Text × Entry V))
      → delete k (forget_entries es) ≡ forget_entries (delete k es)
  unfolding delete
  delete-forget k [] = refl
  delete-forget k ((j, e) ∷ es) =
      if-cases
        (λ l.
          (if text_beq j k
            then forget_entries es
            else (j, forget_entry e) ∷ delete k (forget_entries es))
          ≡ forget_entries l)
        (text_beq j k) es ((j, e) ∷ delete k es) (λ h. rw h refl)
        (λ h. rw h (ap (λ l. (j, forget_entry e) ∷ l) (delete-forget k es)))

  insert-forget :
      (k : Text) (x : Entry V) (es : List (Text × Entry V))
      → insert k (forget_entry x) (forget_entries es) ≡ forget_entries (insert k x es)
  unfolding insert
  insert-forget k x [] = refl
  insert-forget k x ((j, e) ∷ es) =
      if-cases
        (λ l.
          (if text_beq j k
            then (j, forget_entry x) ∷ forget_entries es
            else (j, forget_entry e) ∷ insert k (forget_entry x) (forget_entries es))
          ≡ forget_entries l)
        (text_beq j k) ((j, x) ∷ es) ((j, e) ∷ insert k x es) (λ h. rw h refl)
        (λ h. rw h (ap (λ l. (j, forget_entry e) ∷ l) (insert-forget k x es)))

  length-forget : (es : List (Text × Entry V)) → length (forget_entries es) ≡ length es
  length-forget [] = refl
  length-forget (e ∷ es) = ap suc (length-forget es)

  tail-forget : (es : List (Text × Entry V)) → tail (forget_entries es) ≡ forget_entries (tail es)
  tail-forget [] = refl
  tail-forget (e ∷ es) = refl

  abbrev pub forget_result : BoundedTtlMap V × Bool → ClaimStore × Bool
  forget_result r = (forget r.0, r.1)

  live_entry-forget :
      (now : ℕ) (k : Text) (m : BoundedTtlMap V) (o : Option (Entry V))
      → flag (live_entry now k (forget m) (forget_option o))
        ≡ forget_result (flag (live_entry now k m o))
  unfolding live_entry
  live_entry-forget now k m none = refl
  live_entry-forget now k m (some x) =
      let gone : ClaimStore × Bool =
        (record (forget m) { entries = delete k (forget_entries m.entries) }, false) in
      let same : gone ≡ (forget (record m { entries = delete k m.entries }), false) =
        ap (λ es. (record (forget m) { entries = es }, false)) (delete-forget k m.entries) in
      if-cases
        (λ (r : BoundedTtlMap V × Option (Entry V)).
          flag (
            if leb x.expires_at now
            then (record (forget m) { entries = delete k (forget_entries m.entries) }, none)
            else (forget m, some (forget_entry x)))
          ≡ forget_result (flag r))
        (leb x.expires_at now) (record m { entries = delete k m.entries }, none) (m, some x)
        (λ h. rw h same) (λ h. rw h refl)

  pub has-forget :
      (now : ℕ) (k : Text) (m : BoundedTtlMap V)
      → has now k (forget m) ≡ forget_result (has now k m)
  unfolding has live
  has-forget now k m =
      ap (λ o. flag (live_entry now k (forget m) o)) (lookup-forget k m.entries)
      ∙ live_entry-forget now k m (lookup k m.entries)

  pub set-forget :
      (now : ℕ) (k : Text) (v : V) (m : BoundedTtlMap V)
      → set now k tt (forget m) ≡ forget (set now k v m)
  unfolding set evict_oldest
  set-forget now k v m =
      let x : Entry V = record { value = v; expires_at = now + m.ttl_ms } in
      let es = insert k x (delete k m.entries) in
      let same : insert k (forget_entry x) (delete k (forget_entries m.entries))
          ≡ forget_entries es =
        ap (insert k (forget_entry x)) (delete-forget k m.entries)
        ∙ insert-forget k x (delete k m.entries) in
      rw (same, length-forget es, tail-forget es)
        (if-cases
          (λ r.
            (if ltb m.max_entries (length es)
              then forget (record m { entries = tail es })
              else forget (record m { entries = es }))
            ≡ forget r)
          (ltb m.max_entries (length es)) (record m { entries = tail es })
          (record m { entries = es }) (λ h. rw h refl) (λ h. rw h refl))
