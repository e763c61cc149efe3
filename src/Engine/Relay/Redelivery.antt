-- ===== src/Engine/Relay/Redelivery.antt =====
-- A message that engine/response_relay.py gets again.
use text.Mathlib.TextEquality.{eq_iff}
use justflow.Common.{ℕ, ◌+◌, ◌<◌, ◌≡◌, refl, none, some, inl, inr, arith, Bool-cases}
use justflow.Common.Dict.{lookup, insert, delete, lookup-delete}
use justflow.Engine.Exceptions.{ok}
use justflow.Engine.Deduplication.{
  DeduplicationStore, DeliveryClaim, claimed, claim, complete, release, holds,
}
use justflow.Engine.Deduplication.Deliveries.{claim-complete}
use justflow.Engine.Relay.{
  ack, ReceivedMessage, Envelope, RelayEnvironment, settled, working, read_envelope, admit, finish,
}

release_deleted :
    (c : DeliveryClaim) (s : DeduplicationStore)
    → release c (record s { pending = delete c.message_id s.pending })
      ≡ record s { pending = delete c.message_id s.pending }
unfolding release holds
release_deleted c s =
    let gone : lookup c.message_id (delete c.message_id s.pending) ≡ none = ground (
      arith,
      eq_iff c.message_id c.message_id,
      lookup-delete c.message_id c.message_id s.pending,
    ) in
    rw (release, holds, gone) refl

release-complete :
    (now : ℕ) (c : DeliveryClaim) (s : DeduplicationStore)
    → release c (complete now c s) ≡ complete now c s
unfolding complete
release-complete now c s = elim (Bool-cases (holds c s)) [
  | inl held ↦ rw held (
      release_deleted c
        (record s { entries = insert c.message_id (now + s.retention_seconds) s.entries }))
  | inr lost ↦ rw lost (unfold release in rw lost refl)
]

module _ {W : Type 0} (env : RelayEnvironment W) (now : ℕ) (message : ReceivedMessage)
    (s : DeduplicationStore) {c : DeliveryClaim} {envelope : Envelope} {s' : DeduplicationStore}
    (begun : admit env now message s ≡ ok (working c envelope, s')) where
  admitted :
      (read_envelope env message.body ≡ some envelope)
      × (claim now envelope.message_id s ≡ ok (claimed c, s'))
  unfolding admit
  admitted = ground arith

  -- After an admitted delivery was finished with an acknowledgement, the same message before the
  -- completion's time plus the retention is acknowledged without another signal, on the store that the
  -- completion left and on the one that the release of the claim left. (Claims of other deliveries in
  -- between may evict the completed one when the store is full.)
  pub admit-finish :
      (done later : ℕ)
      → later < done + s.retention_seconds
      → ((s'' : DeduplicationStore) × (admit env later message (finish done c (ok ack) s')
            ≡ ok (settled ack, s'')))
        × ((s'' : DeduplicationStore) × (admit env later message
                (release c (finish done c (ok ack) s'))
              ≡ ok (settled ack, s'')))
  unfolding admit finish
  admit-finish done later h =
      let (read, granted) = admitted in
      let (s'', e) = claim-complete now envelope.message_id s granted done later h in
      ((s'', rw (admit, read, e) refl), (s'', rw (admit, read, release-complete done c s', e) refl))
