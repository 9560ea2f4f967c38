-- ===== src/Experiments/Registry.antt =====
-- registry.ts: which experiments are on. Of a definition, the texts that only the operator reads are left
-- out; a record is the entry.
use line_deno_bot.Prelude.{
  ℕ, Bool, true, false, not, ◌&&◌, ◌||◌, Option, none, some, List, [], ◌∷◌, if◌then◌else◌, get_or,
  ltb, leb, length, filter, any,
}
use line_deno_bot.Prelude.Text.{Text, text, text_beq, text_eq, trim}
use line_deno_bot.Prelude.Dict.{lookup, insert}

pub data EvidenceKind : Type 0 where
  no_evidence local_replay live_paired host_profile : EvidenceKind

pub data ExperimentState : Type 0 where
  not_run running adopted rejected blocked : ExperimentState

pub record ExperimentDefinition : Type 0 where
  pub id : Text
  pub min_samples : ℕ
  pub rollback : Text
  pub conflicts_with : List Text
  pub requires_host_control : Bool

pub record Entry : Type 0 where
  pub definition : ExperimentDefinition
  pub state : ExperimentState
  pub note : Text
  pub evidence : EvidenceKind

pub record ExperimentRegistry : Type 0 where
  pub entries : List (Text × Entry)
  pub max_concurrent : ℕ

-- The errors, with the id of the experiment; `conflicts` has the one that it conflicts with as well.
pub data RegistryError : Type 0 where
  duplicate_id no_rollback bad_sample_floor : Text → RegistryError
  unknown_conflict : Text → Text → RegistryError
  unknown_experiment needs_host_control no_evidence_given too_many_on : Text → RegistryError
  conflicts : Text → Text → RegistryError
  below_sample_floor : Text → ℕ → ℕ → RegistryError

pub data Answer (A : Type 0) : Type 0 where
  answered : A → Answer A
  thrown : RegistryError → Answer A

-- `ACTIVE.has`.
abbrev pub is_active : ExperimentState → Bool
is_active running = true
is_active adopted = true
is_active _ = false

abbrev pub is_active_entry : Text × Entry → Bool
is_active_entry (id, entry) = is_active entry.state

unfoldable pub active : ExperimentRegistry → List (Text × Entry)
active r = filter is_active_entry r.entries

abbrev pub is_on_entry : Option Entry → Bool
is_on_entry none = false
is_on_entry (some entry) = is_active entry.state

unfoldable pub is_on : Text → ExperimentRegistry → Bool
is_on id r = is_on_entry (lookup id r.entries)

abbrev pub lists : ExperimentDefinition → Text → Bool
lists d id = any (λ other. text_beq other id) d.conflicts_with

abbrev pub conflict_with : ExperimentDefinition → ExperimentDefinition → Bool
conflict_with d other = lists d other.id || lists other d.id

-- `#conflictOn`, over the active entries.
unfoldable pub conflict_on : ExperimentDefinition → List (Text × Entry) → Option Text
conflict_on d [] = none
conflict_on d ((id, entry) ∷ rest) =
    if conflict_with d entry.definition then some entry.definition.id else conflict_on d rest

abbrev pub written : Text → Entry → ExperimentRegistry → ExperimentRegistry
written id entry r = record r { entries = insert id entry r.entries }

abbrev pub started :
    Text → Entry → ExperimentRegistry → Option Text → ExperimentRegistry × Answer Entry
started id entry r (some blocker) = (r, thrown (conflicts id blocker))
started id entry r none =
    if leb r.max_concurrent (length (active r))
    then (r, thrown (too_many_on id))
    else let on = record entry { state = running; note = text "collecting samples" } in
      (written id on r, answered on)

abbrev pub start_entry :
    Text → Bool → ExperimentRegistry → Option Entry → ExperimentRegistry × Answer Entry
start_entry id confirmed r none = (r, thrown (unknown_experiment id))
start_entry id confirmed r (some entry) =
    if is_active entry.state
    then (r, answered entry)
    else if entry.definition.requires_host_control && not confirmed
    then (r, thrown (needs_host_control id))
    else started id entry r (conflict_on entry.definition (active r))

unfoldable pub start : Text → Bool → ExperimentRegistry → ExperimentRegistry × Answer Entry
unfolding active conflict_on
start id confirmed r = start_entry id confirmed r (lookup id r.entries)

pub record Detail : Type 0 where
  pub note : Text
  pub evidence : EvidenceKind
  pub samples : Option ℕ

abbrev pub is_no_evidence : EvidenceKind → Bool
is_no_evidence no_evidence = true
is_no_evidence _ = false

abbrev pub concluded :
    Text → ExperimentState → Detail → Entry → ExperimentRegistry → ExperimentRegistry × Answer Entry
concluded id state detail entry r =
    let verdict = record entry { state = state; note = detail.note; evidence = detail.evidence } in
    (written id verdict r, answered verdict)

abbrev pub conclude_entry :
    Text → Bool → Detail → ExperimentRegistry → Option Entry → ExperimentRegistry × Answer Entry
conclude_entry id adopt detail r none = (r, thrown (unknown_experiment id))
conclude_entry id adopt detail r (some entry) =
    if not adopt
    then concluded id rejected detail entry r
    else if is_no_evidence detail.evidence
    then (r, thrown (no_evidence_given id))
    else if ltb (get_or detail.samples 0) entry.definition.min_samples
    then (r, thrown (below_sample_floor id (get_or detail.samples 0) entry.definition.min_samples))
    else concluded id adopted detail entry r

-- `adopt` is the verdict.
unfoldable pub conclude :
    Text → Bool → Detail → ExperimentRegistry → ExperimentRegistry × Answer Entry
conclude id adopt detail r = conclude_entry id adopt detail r (lookup id r.entries)

abbrev pub rollback_entry :
    Text → Text → ExperimentRegistry → Option Entry → ExperimentRegistry × Option Entry
rollback_entry id note r none = (r, none)
rollback_entry id note r (some entry) =
    let off = record entry { state = rejected; note = note } in (written id off r, some off)

unfoldable pub rollback : Text → Text → ExperimentRegistry → ExperimentRegistry × Option Entry
rollback id note r = rollback_entry id note r (lookup id r.entries)

abbrev pub block_entry :
    Text → Text → ExperimentRegistry → Option Entry → ExperimentRegistry × Answer Entry
block_entry id note r none = (r, thrown (unknown_experiment id))
block_entry id note r (some entry) =
    let off = record entry { state = blocked; note = note } in (written id off r, answered off)

unfoldable pub block : Text → Text → ExperimentRegistry → ExperimentRegistry × Answer Entry
block id note r = block_entry id note r (lookup id r.entries)

abbrev pub is_blank : Text → Bool
is_blank [] = true
is_blank (c ∷ t) = false

unfoldable pub entry_of : ExperimentDefinition → Entry
entry_of d = record {
  definition = d;
  state = if d.requires_host_control then blocked else not_run;
  note =
      if d.requires_host_control
      then text "needs host profiling before it can run"
      else text "defined";
  evidence = no_evidence;
}

abbrev pub is_held : Option Entry → Bool
is_held none = false
is_held (some entry) = true

-- The loop of the constructor over `#define`.
unfoldable pub define_all :
    List ExperimentDefinition → List (Text × Entry) → Answer (List (Text × Entry))
unfolding trim entry_of
define_all [] entries = answered entries
define_all (d ∷ ds) entries =
    let rest = define_all ds (insert d.id (entry_of d) entries) in
    if is_held (lookup d.id entries)
    then thrown (duplicate_id d.id)
    else if is_blank (trim d.rollback)
    then thrown (no_rollback d.id)
    else if ltb d.min_samples 1
    then thrown (bad_sample_floor d.id)
    else rest

-- The first id of a list that the registry does not have.
abbrev missing : List Text → List (Text × Entry) → Option Text
missing [] entries = none
missing (id ∷ ids) entries = if is_held (lookup id entries) then missing ids entries else some id

abbrev blame : Text → Option Text → Option RegistryError → Option RegistryError
blame id none rest = rest
blame id (some other) rest = some (unknown_conflict id other)

-- `#assertConflictsResolve`.
abbrev pub unresolved : List (Text × Entry) → List (Text × Entry) → Option RegistryError
unresolved all [] = none
unresolved all ((id, entry) ∷ rest) =
    blame entry.definition.id (missing entry.definition.conflicts_with all) (unresolved all rest)

abbrev pub checked : ℕ → List (Text × Entry) → Option RegistryError → Answer ExperimentRegistry
checked ceiling entries none = answered (record { entries = entries; max_concurrent = ceiling })
checked ceiling entries (some e) = thrown e

abbrev pub resolved : ℕ → Answer (List (Text × Entry)) → Answer ExperimentRegistry
resolved ceiling (thrown e) = thrown e
resolved ceiling (answered entries) = checked ceiling entries (unresolved entries entries)

unfoldable pub new_registry : List ExperimentDefinition → Option ℕ → Answer ExperimentRegistry
unfolding define_all lookup
new_registry ds max_concurrent = resolved (get_or max_concurrent 1) (define_all ds [])
