-- ===== src/Engine/Deduplication/Deliveries.antt =====
-- One delivery through the operations of engine/deduplication.py, as a consumer sees it.
use text.Mathlib.TextEquality.{eq_iff}
use justflow.Common.{ℕ, ◌+◌, ◌<◌, String, ◌≡◌, [], ◌∷◌, arith, length, true, false}
use justflow.Common.Dict.{Dict, contains, insert, delete, lookup-insert, contains-insert}
use justflow.Engine.Exceptions.{ok}
use justflow.Engine.Deduplication.{
  DeduplicationStore, DeliveryClaim, claimed, duplicate, completed, in_flight, expire, evict, claim,
  same_object, holds, complete,
}
use justflow.Engine.Deduplication.Invariant.{contains-expire}

contains-evict :
    (k : String) (capacity pending : ℕ) (d d' : Dict ℕ)
    → contains k d ≡ false
    → evict capacity pending d ≡ ok d'
    → contains k d' ≡ false
unfolding evict contains
contains-evict k capacity pending [] d' h e = ground arith
contains-evict k capacity pending ((j, t) ∷ d) d' h e =
    ground (arith, contains-evict k capacity pending d d')

contains-expire-insert :
    (k : String) (t now : ℕ) (d : Dict ℕ) → now < t → contains k (expire now (insert k t d)) ≡ true
unfolding expire insert contains
contains-expire-insert k t now [] h = ground (arith, eq_iff k k)
contains-expire-insert k t now ((j, u) ∷ d) h =
    ground (arith, eq_iff k k, eq_iff j k, contains-expire-insert k t now d h)

module _ (now : ℕ) (k : String) (s : DeduplicationStore) {c : DeliveryClaim}
    {s' : DeduplicationStore} (granted : claim now k s ≡ ok (claimed c, s')) where
  -- what a granted claim has changed
  granted_pending :
      (c.message_id ≡ k)
      × (s'.pending ≡ insert k c s.pending)
      × (contains k (expire now s.entries) ≡ false)
      × (s'.retention_seconds ≡ s.retention_seconds)
      × (evict s.capacity (length s.pending) (expire now s.entries) ≡ ok s'.entries)
  unfolding claim
  granted_pending = ground arith

  -- A claim names the delivery that was asked for.
  pub message_id-claim : c.message_id ≡ k
  message_id-claim = granted_pending.0

  -- After a claim was granted, a claim of the same delivery on the store that it left is refused as in
  -- flight, whatever the clock reads.
  pub claim-claim :
      (later : ℕ) → (s'' : DeduplicationStore) × (claim later k s' ≡ ok (duplicate in_flight, s''))
  claim-claim later = (record s' { entries = expire later s'.entries }, refused later)
    where
      fresh : (later : ℕ) → contains k (expire later s'.entries) ≡ false
      fresh later =
          let (_, _, absent, _, kept) = granted_pending in
          contains-expire later k s'.entries (contains-evict k _ _ _ s'.entries absent kept)

      held : contains k s'.pending ≡ true
      held = rw (granted_pending.1, contains-insert) (ground (arith, eq_iff k k))

      refused :
          (later : ℕ)
          → claim later k s'
            ≡ ok (duplicate in_flight, record s' { entries = expire later s'.entries })
      refused later = unfold claim in rw (fresh later, held)

  -- After a claim was granted and then completed, a claim of the same delivery on the store that the
  -- completion left, before its time plus the retention, is refused as completed. (Claims of other
  -- deliveries in between may evict the completed one when the store is full.)
  pub claim-complete :
      (done later : ℕ)
      → later < done + s.retention_seconds
      → (s'' : DeduplicationStore) × (claim later k (complete done c s')
          ≡ ok (duplicate completed, s''))
  unfolding claim complete holds same_object
  claim-complete done later h = (
    record s' {
      pending = delete c.message_id s'.pending;
      entries = expire later (insert c.message_id (done + s'.retention_seconds) s'.entries);
    },
    ground (
      arith,
      granted_pending,
      lookup-insert k k c s.pending,
      eq_iff k k,
      contains-expire-insert k (done + s'.retention_seconds) later s'.entries,
    ),
  )
