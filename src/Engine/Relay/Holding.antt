-- ===== src/Engine/Relay/Holding.antt =====
-- What the operations of a delivery leave of the claims of others (engine/response_relay.py).
use text.Mathlib.Text.{◌==◌ as str_eq}
use text.Mathlib.TextEquality.{eq_iff}
use justflow.Common.{
  ℕ, ◌≤◌, String, ◌≡◌, ◌≢◌, refl, false, some, inl, inr, List, [], ◌∷◌, ◌++◌, arith, All,
  Bool-cases,
}
use justflow.Common.Dict.{
  lookup, contains, insert, delete, lookup-insert, lookup-delete, lookup-contains,
}
use justflow.Engine.Exceptions.{Result, ok, err}
use justflow.Engine.Deduplication.{
  DeduplicationStore, DeliveryClaim, complete, release, holds, same_object,
}
use justflow.Engine.Relay.{ProcessingOutcome, ack, retry, dead_letter, finish}
use justflow.Engine.Relay.Claims.{
  IsApart, identifier, object, IsHeld, IsExclusive, IsKnown, All-map, All-middle, IsSpread-middle,
}

pub lookup-delete_other :
    (c d : DeliveryClaim) (s : DeduplicationStore)
    → d.message_id ≢ c.message_id
    → IsHeld s d
    → lookup d.message_id (delete c.message_id s.pending) ≡ some d
lookup-delete_other c d s other h =
    ground
      (arith, eq_iff c.message_id d.message_id, lookup-delete c.message_id d.message_id s.pending)

pub release-others :
    (c d : DeliveryClaim) (s : DeduplicationStore)
    → d.message_id ≢ c.message_id
    → IsHeld s d
    → IsHeld (release c s) d
unfolding release
release-others c d s other h = elim (Bool-cases (holds c s)) [
  | inl held ↦ rw held (lookup-delete_other c d s other h)
  | inr lost ↦ rw lost h
]

pub complete-others :
    (now : ℕ) (c d : DeliveryClaim) (s : DeduplicationStore)
    → d.message_id ≢ c.message_id
    → IsHeld s d
    → IsHeld (complete now c s) d
unfolding complete
complete-others now c d s other h = elim (Bool-cases (holds c s)) [
  | inl held ↦ rw held (lookup-delete_other c d s other h)
  | inr lost ↦ rw lost h
]

pub finish-others :
    (now : ℕ) (c : DeliveryClaim) (outcome : Result ProcessingOutcome) (s : DeduplicationStore)
    (d : DeliveryClaim)
    → d.message_id ≢ c.message_id
    → IsHeld s d
    → IsHeld (finish now c outcome s) d
unfolding finish
finish-others now c (ok ack) s d other h = complete-others now c d s other h
finish-others now c (ok (retry r)) s d other h = h
finish-others now c (ok (dead_letter r)) s d other h = h
finish-others now c (err e) s d other h = h

pub next_identity-finish :
    (now : ℕ) (c : DeliveryClaim) (outcome : Result ProcessingOutcome) (s : DeduplicationStore)
    → (finish now c outcome s).next_identity ≡ s.next_identity
unfolding finish complete
next_identity-finish now c (ok ack) s = ground arith
next_identity-finish now c (ok (retry r)) s = refl
next_identity-finish now c (ok (dead_letter r)) s = refl
next_identity-finish now c (err e) s = refl

pub next_identity-release :
    (c : DeliveryClaim) (s : DeduplicationStore) → (release c s).next_identity ≡ s.next_identity
unfolding release
next_identity-release c s = ground arith

-- A release leaves the claims of other objects, of whatever deliveries.
pub release-objects :
    (d c : DeliveryClaim) (s : DeduplicationStore)
    → c.identity ≢ d.identity
    → IsHeld s c
    → IsHeld (release d s) c
unfolding release holds same_object
release-objects d c s other h = elim (Bool-cases (str_eq d.message_id c.message_id)) [
  | inl same ↦
      let found : lookup d.message_id s.pending ≡ some c =
        rw ((eq_iff d.message_id c.message_id).0 same) h in
      let lost : holds d s ≡ false = ground (arith, found) in rw lost h
  | inr differ ↦
      release-others d c s (λ e. absurd (ground (arith, eq_iff d.message_id c.message_id))) h
]

pub All-IsHeld :
    (s s' : DeduplicationStore) (k : String) (cs : List DeliveryClaim)
    → ((d : DeliveryClaim) → d.message_id ≢ k → IsHeld s d → IsHeld s' d)
    → IsApart identifier k cs
    → All (IsHeld s) cs
    → All (IsHeld s') cs
All-IsHeld s s' k [] f a h = tt
All-IsHeld s s' k (d ∷ cs) f a h = (f d a.0 h.0, All-IsHeld s s' k cs f a.1 h.1)

-- A delivery that is not pending is none of those in work.
pub idle-IsApart :
    (s : DeduplicationStore) (k : String) (cs : List DeliveryClaim)
    → contains k s.pending ≡ false
    → All (IsHeld s) cs
    → IsApart identifier k cs
idle-IsApart s k [] idle h = tt
idle-IsApart s k (d ∷ cs) idle h = ((λ e. absurd (apart d (h.0) e)), idle-IsApart s k cs idle h.1)
  where
    apart : (d : DeliveryClaim) → IsHeld s d → d.message_id ≢ k
    apart d held e = cc (rw e at held, lookup-contains k s.pending idle)

-- A store that has counted no fewer claims knows the same ones.
pub still_known :
    (s s' : DeduplicationStore) (cs : List DeliveryClaim)
    → s.next_identity ≤ s'.next_identity
    → All (IsKnown s) cs
    → All (IsKnown s') cs
still_known s s' cs e h = All-map (IsKnown s) (IsKnown s') cs (λ c k. omega arith) h

pub new-IsApart :
    (s : DeduplicationStore) (c : DeliveryClaim) (cs : List DeliveryClaim)
    → c.identity ≡ s.next_identity
    → All (IsKnown s) cs
    → IsApart object c.identity cs
new-IsApart s c cs e h = All-map (IsKnown s) _ cs (λ d k. omega arith) h

pub All-IsHeld_objects :
    (s : DeduplicationStore) (d : DeliveryClaim) (cs : List DeliveryClaim)
    → IsApart object d.identity cs
    → All (IsHeld s) cs
    → All (IsHeld (release d s)) cs
All-IsHeld_objects s d [] a h = tt
All-IsHeld_objects s d (c ∷ cs) a h =
    (release-objects d c s a.0 h.0, All-IsHeld_objects s d cs a.1 h.1)

pub begun-IsExclusive :
    (s s' : DeduplicationStore) (c : DeliveryClaim) (cs : List DeliveryClaim)
    → contains c.message_id s.pending ≡ false
    → s'.pending ≡ insert c.message_id c s.pending
    → IsExclusive s cs
    → IsExclusive s' (c ∷ cs)
begun-IsExclusive s s' c cs idle pending x =
    let apart = idle-IsApart s c.message_id cs idle x.held in
    record {
      held = (
        rw (pending, lookup-insert) (ground (arith, eq_iff c.message_id c.message_id)),
        All-IsHeld s s' c.message_id cs
            (λ d other h.
              rw (pending, lookup-insert) (ground (arith, eq_iff c.message_id d.message_id)))
            apart x.held,
      );
      spread = (apart, x.spread);
    }

pub finished-IsExclusive :
    (s : DeduplicationStore) (before : List DeliveryClaim) (c : DeliveryClaim)
    (after : List DeliveryClaim) (now : ℕ) (outcome : Result ProcessingOutcome)
    → IsExclusive s (before ++ c ∷ after)
    → IsExclusive (finish now c outcome s) (before ++ after)
finished-IsExclusive s before c after now outcome x =
    let (apart, spread) = IsSpread-middle identifier before c after x.spread in
    let (mine, held) = All-middle (IsHeld s) before c after x.held in
    record {
      held =
          All-IsHeld s (finish now c outcome s) c.message_id (before ++ after)
            (finish-others now c outcome s) apart held;
      spread = spread;
    }

-- A new claim is none of those that wait for their release.
pub joined :
    (s : DeduplicationStore) (c : DeliveryClaim) (cs ds : List DeliveryClaim)
    → c.identity ≡ s.next_identity
    → All (IsKnown s) ds
    → All (λ d. IsApart object d.identity cs) ds
    → All (λ d. IsApart object d.identity (c ∷ cs)) ds
joined s c cs [] e h a = tt
joined s c cs (d ∷ ds) e h a = ((new d h.0, a.0), joined s c cs ds e h.1 a.1)
  where
    new : (d : DeliveryClaim) → IsKnown s d → c.identity ≢ d.identity
    new d k = omega arith
