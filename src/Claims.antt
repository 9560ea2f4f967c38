-- ===== src/Claims.antt =====
-- apps/worker/src/core/dedupe: composite claim keys (claim-store.ts), the "first caller wins" store,
-- and the three gates of claims.ts. Surfaces are those of packages/contracts/src/surface.ts.
mod Tests
pub mod Keys
pub mod Once
use line_deno_bot.Prelude.{
  ℕ, Bool, true, false, Option, none, some, List, [], ◌∷◌, ◌++◌, if◌then◌else◌,
}
use line_deno_bot.Prelude.Text.{Text, text}
use line_deno_bot.Store.{BoundedTtlMap, create}
use line_deno_bot.Store

pub data Surface : Type 0 where
  talk square oa : Surface

abbrev pub surface_name : Surface → Text
surface_name talk = text "talk"
surface_name square = text "square"
surface_name oa = text "oa"

-- `parts.join(String.fromCharCode(0))`.
unfoldable pub claim_key : List Text → Text
claim_key [] = []
claim_key (part ∷ []) = part
claim_key (part ∷ next ∷ parts) = part ++ (0 ∷ claim_key (next ∷ parts))

abbrev pub ClaimStore : Type 0
ClaimStore = BoundedTtlMap (Unit {0})

-- `tryClaim`: the store after the call, and whether this call acquired the claim.
unfoldable pub try_claim : ℕ → Text → ClaimStore → ClaimStore × Bool
try_claim now key store =
    let (seen, taken) = Store.has now key store in
    if taken then (seen, false) else (Store.set now key tt seen, true)

unfoldable pub release : Text → ClaimStore → ClaimStore
release key store = Store.remove key store

pub record StoreOptions : Type 0 where
  pub ttl_ms : ℕ
  pub max_entries : ℕ

pub record ClaimsConfig : Type 0 where
  pub incoming : StoreOptions
  pub reply : StoreOptions
  pub room_answer : StoreOptions

pub record Claims : Type 0 where
  pub incoming : ClaimStore
  pub reply : ClaimStore
  pub room_answer : ClaimStore

abbrev pub store_of : StoreOptions → Option ClaimStore
store_of o = create o.ttl_ms o.max_entries

infixl 5 ◌>>=◌
abbrev ◌>>=◌ : {A B : Type 0} → Option A → (A → Option B) → Option B
none >>= next = none
some store >>= next = next store

-- The constructor; `none` is the RangeError of one of the stores.
unfoldable pub new_claims : ClaimsConfig → Option Claims
new_claims config = do
  incoming ← store_of config.incoming
  reply ← store_of config.reply
  room_answer ← store_of config.room_answer
  some (record { incoming = incoming; reply = reply; room_answer = room_answer })

unfoldable pub incoming_message : ℕ → Text → Surface → Text → Claims → Claims × Bool
incoming_message now bot_id surface message_id c =
    let key = claim_key (bot_id ∷ surface_name surface ∷ message_id ∷ []) in
    let (store, won) = try_claim now key c.incoming in (record c { incoming = store }, won)

unfoldable pub claim_reply : ℕ → Text → Text → Text → Text → Claims → Claims × Bool
claim_reply now bot_id room rule_id message_id c =
    let key = claim_key (bot_id ∷ room ∷ rule_id ∷ message_id ∷ []) in
    let (store, won) = try_claim now key c.reply in (record c { reply = store }, won)

unfoldable pub claim_room_answer : ℕ → Text → Text → Text → Claims → Claims × Bool
claim_room_answer now owner_id room message_id c =
    let key = claim_key (owner_id ∷ room ∷ message_id ∷ []) in
    let (store, won) = try_claim now key c.room_answer in (record c { room_answer = store }, won)

unfoldable pub release_incoming : Text → Surface → Text → Claims → Claims
unfolding release
release_incoming bot_id surface message_id c =
    let key = claim_key (bot_id ∷ surface_name surface ∷ message_id ∷ []) in
    record c { incoming = release key c.incoming }

pub record Sizes : Type 0 where
  pub incoming : ℕ
  pub reply : ℕ
  pub room_answer : ℕ

unfoldable pub sizes : Claims → Sizes
sizes c = record {
  incoming = Store.size c.incoming;
  reply = Store.size c.reply;
  room_answer = Store.size c.room_answer;
}
