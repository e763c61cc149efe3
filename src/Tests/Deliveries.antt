-- ===== src/Tests/Deliveries.antt =====
-- engine/deduplication.py on fixed data.
use justflow.Common.{◌≡◌, refl, [], ◌∷◌, arith}
use justflow.Engine.Exceptions.{ok}
use justflow.Engine.Deduplication.{
  DeduplicationStore, DeliveryClaim, ClaimOutcome, claimed, duplicate, in_flight, completed, claim,
  complete, expire, evict,
}
use justflow.Engine.Deduplication.Invariant.{
  IsValid, claim-IsValid, next, here, claims, Reach-IsValid,
}
use justflow.Engine.Deduplication.Deliveries.{claim-claim, claim-complete}
use justflow.Common.Dict.{insert, contains}

abbrev empty_store : DeduplicationStore
empty_store = record {
  capacity = 2;
  retention_seconds = 10;
  entries = [];
  pending = [];
  next_identity = 0;
}

abbrev first_claim : DeliveryClaim
first_claim = record { message_id = "a"; identity = 0 }

abbrev second_claim : DeliveryClaim
second_claim = record { message_id = "a"; identity = 1 }

abbrev one_pending : DeduplicationStore
one_pending = record {
  capacity = 2;
  retention_seconds = 10;
  entries = [];
  pending = ("a", first_claim) ∷ [];
  next_identity = 1;
}

abbrev claimed_again : DeduplicationStore
claimed_again = record one_pending { pending = ("a", second_claim) ∷ []; next_identity = 2 }

empty_store-IsValid : IsValid empty_store
unfolding contains
empty_store-IsValid = record {
  positive = omega arith;
  bounded = omega arith;
  entries_distinct = tt;
  pending_distinct = tt;
  disjoint = λ j p. refl;
}

claim_run : claim 5 "a" empty_store ≡ ok (claimed first_claim, one_pending)
unfolding claim expire evict insert contains
claim_run = refl

claim-IsValid_example :
    (out : ClaimOutcome) × (s' : DeduplicationStore) × (claim 5 "a" empty_store ≡ ok (out, s'))
    × IsValid s'
claim-IsValid_example = claim-IsValid 5 "a" empty_store empty_store-IsValid

Reach-IsValid_example : IsValid one_pending
Reach-IsValid_example =
    Reach-IsValid (next here (claims 5 "a" (claimed first_claim) claim_run)) empty_store-IsValid

claim-claim_example :
    (s'' : DeduplicationStore) × (claim 7 "a" one_pending ≡ ok (duplicate in_flight, s''))
claim-claim_example = claim-claim 5 "a" empty_store claim_run 7

claim-complete_example :
    (s'' : DeduplicationStore) × (claim 12 "a" (complete 6 first_claim one_pending)
      ≡ ok (duplicate completed, s''))
claim-complete_example = claim-complete 5 "a" empty_store claim_run 6 12 (omega arith)
