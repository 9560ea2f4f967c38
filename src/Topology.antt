-- ===== src/Topology.antt =====
-- apps/worker/src/sharding/topology.ts: which worker serves which owner. The details that an error
-- carries are the arguments of its constructor.
mod Tests
pub mod Owners
pub mod Unnamed
use line_deno_bot.Prelude.{
  ℕ, zero, suc, Bool, true, false, not, ◌&&◌, ◌||◌, Option, none, some, List, [], ◌∷◌, ◌++◌, ltb,
  if◌then◌else◌, filter, any, find, length, is_some, ◌==◌,
}
use line_deno_bot.Prelude.Text.{Text, text_eq, text_beq}
use line_deno_bot.Prelude.Dict.{lookup, insert}

pub record ShardSpec : Type 0 where
  pub worker_id : Text
  pub owners : List Text
  pub is_default : Option Bool
  pub url : Option Text

pub data TopologyProblem : Type 0 where
  empty_worker_id no_shards : TopologyProblem
  duplicate_worker_id idle_shard : Text → TopologyProblem
  split_owner : Text → Text → Text → TopologyProblem
  many_defaults : List Text → TopologyProblem

-- `severity === 'error'`.
abbrev pub is_error : TopologyProblem → Bool
is_error (idle_shard worker_id) = false
is_error _ = true

abbrev pub default_set : ShardSpec → Bool
default_set shard = elim shard.is_default [ none ↦ false | some b ↦ b ]

-- `if (test) problems.push(...)`.
abbrev pub problem_if : Bool → TopologyProblem → List TopologyProblem
problem_if test p = if test then p ∷ [] else []

abbrev pub other_worker : Text → Text → Option Text → List TopologyProblem
other_worker owner worker_id none = []
other_worker owner worker_id (some already) =
    problem_if (not (text_beq already worker_id)) (split_owner owner already worker_id)

-- The loop over the owners of a shard: its problems, and the map of owning workers after it.
unfoldable pub check_owners : Text → List Text → List (Text × Text) → List TopologyProblem
check_owners worker_id [] owning = []
check_owners worker_id (owner ∷ owners) owning =
    other_worker owner worker_id (lookup owner owning)
    ++ check_owners worker_id owners (insert owner worker_id owning)

unfoldable pub assign_owners : Text → List Text → List (Text × Text) → List (Text × Text)
assign_owners worker_id [] owning = owning
assign_owners worker_id (owner ∷ owners) owning =
    assign_owners worker_id owners (insert owner worker_id owning)

-- The loop over the shards, with the workers seen and the owning workers before it.
unfoldable pub check_shards : List ShardSpec → List Text → List (Text × Text) → List TopologyProblem
unfolding check_owners assign_owners
check_shards [] seen owning = []
check_shards (shard ∷ shards) seen owning =
    problem_if (length shard.worker_id == 0) empty_worker_id
    ++ (problem_if (any (text_beq shard.worker_id) seen) (duplicate_worker_id shard.worker_id)
        ++ (check_owners shard.worker_id shard.owners owning
            ++ (problem_if (length shard.owners == 0 && not (default_set shard))
                  (idle_shard shard.worker_id)
                ++ check_shards shards (shard.worker_id ∷ seen)
                    (assign_owners shard.worker_id shard.owners owning))))

pub default_ids : List ShardSpec → List Text
default_ids [] = []
default_ids (shard ∷ shards) =
    let rest = default_ids shards in if default_set shard then shard.worker_id ∷ rest else rest

unfoldable pub validate_topology : List ShardSpec → List TopologyProblem
unfolding check_shards default_ids
validate_topology shards =
    check_shards shards [] []
    ++ (problem_if (ltb 1 (length (default_ids shards))) (many_defaults (default_ids shards))
        ++ problem_if (length shards == 0) no_shards)

pub record ShardTopology : Type 0 where
  pub by_owner : List (Text × ShardSpec)
  pub default : Option ShardSpec
  pub shards : List ShardSpec

pub register_owners : ShardSpec → List Text → List (Text × ShardSpec) → List (Text × ShardSpec)
register_owners shard [] by_owner = by_owner
register_owners shard (owner ∷ owners) by_owner =
    register_owners shard owners (insert owner shard by_owner)

pub register : List ShardSpec → List (Text × ShardSpec) → List (Text × ShardSpec)
unfolding register_owners
register [] by_owner = by_owner
register (shard ∷ shards) by_owner = register shards (register_owners shard shard.owners by_owner)

pub data Created : Type 0 where
  ok : ShardTopology → Created
  -- ConfigError, with the problems that are errors.
  invalid : List TopologyProblem → Created

-- `ShardTopology.create`, with the constructor.
created : List ShardSpec → List TopologyProblem → Created
unfolding register
created shards [] =
    ok
      (record { by_owner = register shards []; default = find default_set shards; shards = shards })
created shards (p ∷ errors) = invalid (p ∷ errors)

unfoldable pub create : List ShardSpec → Created
unfolding created validate_topology
create shards = created shards (filter is_error (validate_topology shards))

abbrev or_default : Option ShardSpec → Option ShardSpec → Option ShardSpec
or_default none d = d
or_default (some shard) d = some shard

unfoldable pub worker_for : Text → ShardTopology → Option ShardSpec
worker_for owner_id t = or_default (lookup owner_id t.by_owner) t.default

abbrev has_id : Text → Option ShardSpec → Bool
has_id worker_id none = false
has_id worker_id (some shard) = text_beq shard.worker_id worker_id

unfoldable pub belongs_to : Text → Text → ShardTopology → Bool
unfolding worker_for
belongs_to owner_id worker_id t = has_id worker_id (worker_for owner_id t)

abbrev owners_or_none : Option ShardSpec → List Text
owners_or_none none = []
owners_or_none (some shard) = shard.owners

unfoldable pub owners_of : Text → ShardTopology → List Text
owners_of worker_id t = owners_or_none (find (λ shard. text_beq shard.worker_id worker_id) t.shards)
