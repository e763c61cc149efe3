-- ===== src/Engine/Relay/Exclusion.antt =====
-- Deliveries of engine/response_relay.py in work side by side.
use justflow.Common.{ℕ, ◌+◌, String, ◌≡◌, ◌≢◌, false, List, [], ◌∷◌, ◌++◌, arith, All}
use justflow.Common.Dict.{contains, insert}
use justflow.Engine.Exceptions.{Result, ok}
use justflow.Engine.Deduplication.{
  DeduplicationStore, DuplicateState, DeliveryClaim, claimed, duplicate, claim, release,
}
use justflow.Engine.Relay.{
  ProcessingOutcome, ReceivedMessage, Envelope, RelayEnvironment, settled, working, admit, finish,
}
use justflow.Engine.Relay.Claims.{
  IsApart, IsSpread, object, IsHeld, IsExclusive, IsKnown, All-map, All-middle, IsSpread-middle,
}
use justflow.Engine.Relay.Holding.{
  next_identity-finish, next_identity-release, still_known, new-IsApart, All-IsHeld_objects,
  begun-IsExclusive, finished-IsExclusive, joined,
}

-- The claim objects in work and those that wait for their release are different ones, and known.
record IsOrderly (s : DeduplicationStore) (cs ds : List DeliveryClaim) : Type 0 where
  exclusive : IsExclusive s cs
  different : IsSpread object cs
  known : All (IsKnown s) cs
  known_finishing : All (IsKnown s) ds
  separate : All (λ d. IsApart object d.identity cs) ds

-- The relay's deliveries on one store: one starts, and is settled at once or works; one in work finishes,
-- with or without a completion, and its claim waits for the release; a waiting claim is released.
abbrev pub Deliveries : Type 0
Deliveries = DeduplicationStore × List DeliveryClaim × List DeliveryClaim

module _ {W : Type 0} (env : RelayEnvironment W) where
  pub data Step : Deliveries → Deliveries → Type 0 where
    settles :
        {s s' : DeduplicationStore} {cs ds : List DeliveryClaim} (now : ℕ)
        (message : ReceivedMessage) (outcome : ProcessingOutcome)
        → admit env now message s ≡ ok (settled outcome, s')
        → Step (s, cs, ds) (s', cs, ds)
    begins :
        {s s' : DeduplicationStore} {cs ds : List DeliveryClaim} (now : ℕ)
        (message : ReceivedMessage) (c : DeliveryClaim) (envelope : Envelope)
        → admit env now message s ≡ ok (working c envelope, s')
        → Step (s, cs, ds) (s', c ∷ cs, ds)
    finishes :
        {s : DeduplicationStore} {ds : List DeliveryClaim} (before : List DeliveryClaim)
        (c : DeliveryClaim) (after : List DeliveryClaim) (now : ℕ)
        (outcome : Result ProcessingOutcome)
        → Step (s, before ++ c ∷ after, ds) (finish now c outcome s, before ++ after, c ∷ ds)
    releases :
        {s : DeduplicationStore} {cs : List DeliveryClaim} (before : List DeliveryClaim)
        (d : DeliveryClaim) (after : List DeliveryClaim)
        → Step (s, cs, before ++ d ∷ after) (release d s, cs, before ++ after)

  claim-duplicate :
      (now : ℕ) (k : String) (s s' : DeduplicationStore) (d : DuplicateState)
      → claim now k s ≡ ok (duplicate d, s')
      → (s'.pending ≡ s.pending) × (s'.next_identity ≡ s.next_identity)
  unfolding claim
  claim-duplicate now k s s' d e = ground arith

  claim-granted :
      (now : ℕ) (k : String) (s s' : DeduplicationStore) (c : DeliveryClaim)
      → claim now k s ≡ ok (claimed c, s')
      → (contains c.message_id s.pending ≡ false)
        × (s'.pending ≡ insert c.message_id c s.pending)
        × (c.identity ≡ s.next_identity)
        × (s'.next_identity ≡ s.next_identity + 1)
  unfolding claim
  claim-granted now k s s' c e = ground arith

  -- What an admission leaves of the store's claims.
  admit-settled :
      (now : ℕ) (message : ReceivedMessage) (s s' : DeduplicationStore)
      (outcome : ProcessingOutcome)
      → admit env now message s ≡ ok (settled outcome, s')
      → (s'.pending ≡ s.pending) × (s'.next_identity ≡ s.next_identity)
  unfolding admit
  admit-settled now message s s' outcome e = ground (arith, claim-duplicate now _ s s')

  admit-working :
      (now : ℕ) (message : ReceivedMessage) (s s' : DeduplicationStore) (c : DeliveryClaim)
      (envelope : Envelope)
      → admit env now message s ≡ ok (working c envelope, s')
      → (contains c.message_id s.pending ≡ false)
        × (s'.pending ≡ insert c.message_id c s.pending)
        × (c.identity ≡ s.next_identity)
        × (s'.next_identity ≡ s.next_identity + 1)
  unfolding admit
  admit-working now message s s' c envelope e = ground (arith, claim-granted now _ s s' c)

  Step-IsOrderly :
      {s s' : DeduplicationStore} {cs cs' ds ds' : List DeliveryClaim}
      → Step (s, cs, ds) (s', cs', ds')
      → IsOrderly s cs ds
      → IsOrderly s' cs' ds'
  Step-IsOrderly {s} {s'} {cs} {ds = ds} (settles now message outcome e) x =
      let (pending, counted) = admit-settled now message s s' outcome e in
      record {
        exclusive = record {
          held = All-map (IsHeld s) (IsHeld s') cs (λ d h. rw pending h) x.exclusive.held;
          spread = x.exclusive.spread;
        };
        different = x.different;
        known = still_known s s' cs (omega arith) x.known;
        known_finishing = still_known s s' ds (omega arith) x.known_finishing;
        separate = x.separate;
      }
  Step-IsOrderly {s} {s'} {cs} {ds = ds} (begins now message c envelope e) x =
      let (idle, pending, new, counted) = admit-working now message s s' c envelope e in
      record {
        exclusive = begun-IsExclusive s s' c cs idle pending x.exclusive;
        different = (new-IsApart s c cs new x.known, x.different);
        known = (omega arith, still_known s s' cs (omega arith) x.known);
        known_finishing = still_known s s' ds (omega arith) x.known_finishing;
        separate = joined s c cs ds new x.known_finishing x.separate;
      }
  Step-IsOrderly {s} {ds = ds} (finishes before c after now outcome) x =
      let s' = finish now c outcome s in
      let kept = next_identity-finish now c outcome s in
      let (apart, different) = IsSpread-middle object before c after x.different in
      let (mine, known) = All-middle (IsKnown s) before c after x.known in
      record {
        exclusive = finished-IsExclusive s before c after now outcome x.exclusive;
        different = different;
        known = still_known s s' (before ++ after) (omega arith) known;
        known_finishing = (omega arith, still_known s s' ds (omega arith) x.known_finishing);
        separate = (
          apart,
          All-map _ _ ds (λ d a. (All-middle (λ w. w.identity ≢ d.identity) before c after a).1)
              x.separate,
        );
      }
  Step-IsOrderly {s} {cs = cs} (releases before d after) x =
      let s' = release d s in
      let kept = next_identity-release d s in
      let (apart, separate) =
        All-middle (λ w. IsApart object w.identity cs) before d after x.separate in
      let (mine, known_finishing) = All-middle (IsKnown s) before d after x.known_finishing in
      record {
        exclusive = record {
          held = All-IsHeld_objects s d cs apart x.exclusive.held;
          spread = x.exclusive.spread;
        };
        different = x.different;
        known = still_known s s' cs (omega arith) x.known;
        known_finishing = still_known s s' (before ++ after) (omega arith) known_finishing;
        separate = separate;
      }

  pub data Reach (start : DeduplicationStore) : Deliveries → Type 0 where
    here : Reach start (start, [], [])
    next : {t u : Deliveries} → Reach start t → Step t u → Reach start u

  Reach-IsOrderly :
      {start s : DeduplicationStore} {cs ds : List DeliveryClaim}
      → Reach start (s, cs, ds)
      → IsOrderly s cs ds
  Reach-IsOrderly here = record {
    exclusive = record { held = tt; spread = tt };
    different = tt;
    known = tt;
    known_finishing = tt;
    separate = tt;
  }
  Reach-IsOrderly (next {t = (s', cs', ds')} r step) = Step-IsOrderly step (Reach-IsOrderly r)

  -- However the deliveries of a relay are interleaved, also between a completion and the release that
  -- follows it, from a state with none in work: no two in work are of one message, and the store holds the
  -- claim of each.
  pub Reach-IsExclusive :
      {start s : DeduplicationStore} {cs ds : List DeliveryClaim}
      → Reach start (s, cs, ds)
      → IsExclusive s cs
  Reach-IsExclusive r = (Reach-IsOrderly r).exclusive
