-- ===== src/Engine/Deduplication.antt =====
-- src/justflow/engine/deduplication.py: the bounded store of delivery claims. An `async` method
-- holds the lock for its whole body, so each is one function from a store to a store.
-- A clock reading and the retention are natural numbers of ticks. `identity` stands for the
-- identity of a claim object, which the tests `is claim` compare: `claim` makes a fresh one.
pub mod Invariant
pub mod Deliveries
use Prim.Native.Nat.{◌+◌, suc}
use mathlib.Core.Bool.{not, ◌&&◌}
use text.Mathlib.Text.{◌==◌ as str_eq}
use justflow.Common.{
  ℕ, String, Bool, true, false, Option, none, some, List, [], ◌∷◌, leb, ◌==◌, if◌then◌else◌, length,
}
use justflow.Common.Dict.{Dict, lookup, contains, insert, delete}
use justflow.Engine.Exceptions.{Raised, value_error, key_error, Result, ok, err, ◌>>=◌}

pub data DuplicateState : Type 0 where
  in_flight completed capacity_exhausted : DuplicateState

pub record DeliveryClaim : Type 0 where
  pub message_id : String
  pub identity : ℕ

pub record DeduplicationStore : Type 0 where
  pub capacity : ℕ
  pub retention_seconds : ℕ
  pub entries : Dict ℕ
  pub pending : Dict DeliveryClaim
  pub next_identity : ℕ

pub data ClaimOutcome : Type 0 where
  claimed : DeliveryClaim → ClaimOutcome
  duplicate : DuplicateState → ClaimOutcome

-- `__init__`, for a finite retention that is no `bool`
unfoldable pub new_store : (capacity retention_seconds : ℕ) → Result DeduplicationStore
new_store capacity retention_seconds =
    if leb 1 capacity && leb 1 retention_seconds
    then ok (record {
      capacity = capacity;
      retention_seconds = retention_seconds;
      entries = [];
      pending = [];
      next_identity = 0;
    })
    else err value_error

-- `_expire`: the entries whose time has come are deleted
unfoldable pub expire : ℕ → Dict ℕ → Dict ℕ
expire now [] = []
expire now ((k, expires_at) ∷ entries) =
    let rest = expire now entries in if leb expires_at now then rest else (k, expires_at) ∷ rest

-- The `while` loop of `claim`. `popitem` of an empty dict raises KeyError.
unfoldable pub evict : (capacity pending : ℕ) → Dict ℕ → Result (Dict ℕ)
evict capacity pending [] = if leb capacity pending then err key_error else ok []
evict capacity pending (e ∷ entries) =
    let rest = evict capacity pending entries in
    if leb capacity (length (e ∷ entries) + pending) then rest else ok (e ∷ entries)

unfoldable pub claim : ℕ → String → DeduplicationStore → Result (ClaimOutcome × DeduplicationStore)
claim now message_id s =
    let entries = expire now s.entries in
    let s' = record s { entries = entries } in
    if contains message_id entries
    then ok (duplicate completed, s')
    else if contains message_id s.pending
    then ok (duplicate in_flight, s')
    else if leb s.capacity (length s.pending)
    then ok (duplicate capacity_exhausted, s')
    else (do
      kept ← evict s.capacity (length s.pending) entries
      let c : DeliveryClaim = record { message_id = message_id; identity = s.next_identity }
      ok (
        claimed c,
        record s {
          entries = kept;
          pending = insert message_id c s.pending;
          next_identity = s.next_identity + 1;
        },
      ))

-- `a is b`
unfoldable pub same_object : DeliveryClaim → DeliveryClaim → Bool
same_object a b = a.identity == b.identity && str_eq a.message_id b.message_id

-- `self._pending.get(claim.message_id) is claim`
unfoldable pub holds : DeliveryClaim → DeduplicationStore → Bool
holds c s = elim (lookup c.message_id s.pending) [ none ↦ false | some held ↦ same_object held c ]

unfoldable pub complete : ℕ → DeliveryClaim → DeduplicationStore → DeduplicationStore
complete now c s =
    if holds c s
    then record s {
      pending = delete c.message_id s.pending;
      entries = insert c.message_id (now + s.retention_seconds) s.entries;
    }
    else s

unfoldable pub release : DeliveryClaim → DeduplicationStore → DeduplicationStore
release c s = if holds c s then record s { pending = delete c.message_id s.pending } else s

unfoldable pub clear : DeduplicationStore → DeduplicationStore
clear s = record s { entries = []; pending = [] }
