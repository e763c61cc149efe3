-- ===== src/Engine/Deduplication/Invariant.antt =====
-- The well-formed stores of engine/deduplication.py, and the sequences of its operations.
use mathlib.Core.Path.{subst}
use text.Mathlib.TextEquality.{eq_iff}
use justflow.Common.{
  ℕ, ◌+◌, ◌≤◌, ◌<◌, String, ◌≡◌, refl, some, [], ◌∷◌, arith, leb, length, Bool-cases, Option-cases,
  ap, ◌∙◌, inl, inr, true, false,
}
use justflow.Common.Dict.{
  Dict, lookup, contains, insert, IsDistinct, contains-insert, contains-delete, length-insert_new,
  length-delete-lt, insert-IsDistinct, delete-IsDistinct, length-delete-le,
}
use justflow.Engine.Exceptions.{ok}
use justflow.Engine.Deduplication.{
  DeduplicationStore, DeliveryClaim, ClaimOutcome, claimed, duplicate, new_store, expire, evict,
  claim, same_object, completed, in_flight, capacity_exhausted, holds, complete, release, clear,
}

-- No identifier is both completed and pending.
abbrev pub IsDisjoint : Dict ℕ → Dict DeliveryClaim → Type 0
IsDisjoint entries pending = (k : String) → contains k pending ≡ true → contains k entries ≡ false

pub record IsValid (s : DeduplicationStore) : Type 0 where
  pub positive : 1 ≤ s.capacity
  pub bounded : length s.entries + length s.pending ≤ s.capacity
  pub entries_distinct : IsDistinct s.entries
  pub pending_distinct : IsDistinct s.pending
  pub disjoint : IsDisjoint s.entries s.pending

pub length-expire-le : (now : ℕ) (d : Dict ℕ) → length (expire now d) ≤ length d
unfolding expire
length-expire-le now [] = omega arith
length-expire-le now ((k, t) ∷ d) = ground (arith, length-expire-le now d)

pub contains-expire :
    (now : ℕ) (k : String) (d : Dict ℕ) → contains k d ≡ false → contains k (expire now d) ≡ false
unfolding expire contains
contains-expire now k [] h = refl
contains-expire now k ((j, t) ∷ d) h = ground (arith, contains-expire now k d)

pub expire-IsDistinct : (now : ℕ) (d : Dict ℕ) → IsDistinct d → IsDistinct (expire now d)
unfolding expire contains
expire-IsDistinct now [] h = tt
expire-IsDistinct now ((k, t) ∷ d) h =
    ground (arith, contains-expire now k d h.0, expire-IsDistinct now d h.1)

-- What the eviction loop leaves, when there is room for one more claim.
pub record Evicted (capacity pending : ℕ) (before after : Dict ℕ) : Type 0 where
  pub room : length after + pending < capacity
  pub distinct : IsDistinct before → IsDistinct after
  pub fewer : (k : String) → contains k before ≡ false → contains k after ≡ false

pub evict_total :
    (capacity pending : ℕ) (d : Dict ℕ)
    → pending < capacity
    → (d' : Dict ℕ) × (evict capacity pending d ≡ ok d') × Evicted capacity pending d d'
unfolding evict contains
evict_total capacity pending [] h =
    ([], ground arith, record { room = omega arith; distinct = λ x. x; fewer = λ k x. x })
evict_total capacity pending ((j, t) ∷ d) h =
    let (d', e, ev) = evict_total capacity pending d h in
    elim (Bool-cases (leb capacity (length ((j, t) ∷ d) + pending))) [
      | inl full ↦ (
        d',
        rw full e,
        record {
          room = ev.room;
          distinct = λ x. ev.distinct x.1;
          fewer = λ k x. ev.fewer k (ground arith);
        },
      )
      | inr fits ↦
          ((j, t) ∷ d, rw fits, record { room = ground arith; distinct = λ x. x; fewer = λ k x. x })
    ]

pub new_store-IsValid :
    (capacity retention : ℕ) {s : DeduplicationStore}
    → new_store capacity retention ≡ ok s
    → IsValid s
unfolding new_store contains
new_store-IsValid capacity retention {s} h = record {
  positive = ground arith;
  bounded = ground arith;
  entries_distinct = ground arith;
  pending_distinct = ground arith;
  disjoint = λ k p. ground arith;
}

expired-IsValid :
    (now : ℕ) (s : DeduplicationStore)
    → IsValid s
    → IsValid (record s { entries = expire now s.entries })
expired-IsValid now s v = record {
  positive = v.positive;
  bounded = omega (arith, length-expire-le now s.entries, v.bounded);
  entries_distinct = expire-IsDistinct now s.entries v.entries_distinct;
  pending_distinct = v.pending_distinct;
  disjoint = λ k p. contains-expire now k s.entries (v.disjoint k p);
}

-- The store after a claim was granted, from what the eviction loop kept.
granted-IsValid :
    (k : String) (c : DeliveryClaim) (n : ℕ) (s : DeduplicationStore) (kept : Dict ℕ)
    → IsValid s
    → contains k s.entries ≡ false
    → contains k s.pending ≡ false
    → Evicted s.capacity (length s.pending) s.entries kept
    → IsValid (record s { entries = kept; pending = insert k c s.pending; next_identity = n })
granted-IsValid k c n s kept v fresh idle ev = record {
  positive = v.positive;
  bounded = omega (arith, ev.room, length-insert_new k c s.pending idle);
  entries_distinct = ev.distinct v.entries_distinct;
  pending_distinct = insert-IsDistinct k c s.pending v.pending_distinct;
  disjoint = λ j p. ground (
    arith,
    contains-insert k j c s.pending,
    eq_iff k j,
    v.disjoint j,
    ev.fewer j,
    ev.fewer k fresh,
  );
}

-- On a well-formed store a claim does not raise, and it leaves a well-formed store.
pub claim-IsValid :
    (now : ℕ) (message_id : String) (s : DeduplicationStore)
    → IsValid s
    → (out : ClaimOutcome) × (s' : DeduplicationStore) × (claim now message_id s ≡ ok (out, s'))
      × IsValid s'
unfolding claim
claim-IsValid now message_id s v =
    let entries = expire now s.entries in
    let v' = expired-IsValid now s v in
    elim (Bool-cases (contains message_id entries)) [
      | inl old ↦ (duplicate completed, record s { entries = entries }, rw old, v')
      | inr fresh ↦ elim (Bool-cases (contains message_id s.pending)) [
        | inl busy ↦ (duplicate in_flight, record s { entries = entries }, rw (fresh, busy), v')
        | inr idle ↦ elim (Bool-cases (leb s.capacity (length s.pending))) [
          | inl full ↦ (
            duplicate capacity_exhausted,
            record s { entries = entries },
            rw (fresh, idle, full),
            v',
          )
          | inr room ↦
              let (kept, e, ev) =
                evict_total s.capacity (length s.pending) entries (ground arith) in
              let c : DeliveryClaim = record {
                message_id = message_id;
                identity = s.next_identity;
              } in
              (
                claimed c,
                record s {
                  entries = kept;
                  pending = insert message_id c s.pending;
                  next_identity = s.next_identity + 1;
                },
                rw (fresh, idle, room, e),
                granted-IsValid message_id c (s.next_identity + 1) (record s { entries = entries })
                    kept v' fresh idle ev,
              )
        ]
      ]
    ]

same_object-eq : (a b : DeliveryClaim) → same_object a b ≡ true → a ≡ b
unfolding same_object
same_object-eq a b h = ground (arith, eq_iff a.message_id b.message_id)

-- A claim that is held stands under its identifier.
pub holds-lookup :
    (c : DeliveryClaim) (s : DeduplicationStore)
    → holds c s ≡ true
    → lookup c.message_id s.pending ≡ some c
unfolding holds
holds-lookup c s h = elim (Option-cases (lookup c.message_id s.pending)) [
  | inl missing ↦ absurd (cc (rw (missing, holds) at h))
  | inr (d, found) ↦ found ∙ ap some (same_object-eq d c (rw (found, holds) at h))
]

lookup-contains {ℓ} :
    {V : Type ℓ} (k : String) (d : Dict V) {v : V} → lookup k d ≡ some v → contains k d ≡ true
unfolding lookup contains
lookup-contains k [] h = cc
lookup-contains k ((j, w) ∷ d) {v} h = ground (arith, lookup-contains k d {v = v})

pub complete-IsValid :
    (now : ℕ) (c : DeliveryClaim) (s : DeduplicationStore) → IsValid s → IsValid (complete now c s)
unfolding complete
complete-IsValid now c s v = elim (Bool-cases (holds c s)) [
  | inr other ↦ rw other v
  | inl held ↦
      let k = c.message_id in
      let found = holds-lookup c s held in
      let fresh = v.disjoint k (lookup-contains k s.pending found) in
      rw held (record {
        positive = v.positive;
        bounded = omega (
          arith,
          v.bounded,
          length-delete-lt k s.pending found,
          length-insert_new k (now + s.retention_seconds) s.entries fresh,
        );
        entries_distinct = insert-IsDistinct k _ s.entries v.entries_distinct;
        pending_distinct = delete-IsDistinct k s.pending v.pending_distinct;
        disjoint = λ j p. ground (
          arith,
          eq_iff k j,
          contains-insert k j (now + s.retention_seconds) s.entries,
          contains-delete k j s.pending,
          v.disjoint j,
        );
      })
]

pub release-IsValid :
    (c : DeliveryClaim) (s : DeduplicationStore) → IsValid s → IsValid (release c s)
unfolding release
release-IsValid c s v = elim (Bool-cases (holds c s)) [
  | inr other ↦ rw other v
  | inl held ↦ rw held (record {
    positive = v.positive;
    bounded = omega (arith, v.bounded, length-delete-le c.message_id s.pending);
    entries_distinct = v.entries_distinct;
    pending_distinct = delete-IsDistinct c.message_id s.pending v.pending_distinct;
    disjoint = λ j p.
        ground
          (arith, eq_iff c.message_id j, contains-delete c.message_id j s.pending, v.disjoint j);
  })
]

pub clear-IsValid : (s : DeduplicationStore) → IsValid s → IsValid (clear s)
unfolding clear contains
clear-IsValid s v = record {
  positive = v.positive;
  bounded = omega arith;
  entries_distinct = tt;
  pending_distinct = tt;
  disjoint = λ k p. refl;
}

-- The consumers' calls, in any order and at any clock readings.
pub data Step : DeduplicationStore → DeduplicationStore → Type 0 where
  claims :
      {s s' : DeduplicationStore} (now : ℕ) (k : String) (out : ClaimOutcome)
      → claim now k s ≡ ok (out, s')
      → Step s s'
  completes : {s : DeduplicationStore} (now : ℕ) (c : DeliveryClaim) → Step s (complete now c s)
  releases : {s : DeduplicationStore} (c : DeliveryClaim) → Step s (release c s)
  clears : {s : DeduplicationStore} → Step s (clear s)

pub data Reach (s : DeduplicationStore) : DeduplicationStore → Type 0 where
  here : Reach s s
  next : {t u : DeduplicationStore} → Reach s t → Step t u → Reach s u

Step-IsValid : {s t : DeduplicationStore} → Step s t → IsValid s → IsValid t
Step-IsValid {s} (claims {s' = s'} now k out e) v =
    let (out', t, e', v') = claim-IsValid now k s v in subst IsValid (cc) v'
Step-IsValid {s} (completes now c) v = complete-IsValid now c s v
Step-IsValid {s} (releases c) v = release-IsValid c s v
Step-IsValid {s} clears v = clear-IsValid s v

-- Claims that return, completions, releases and clears, in any sequence, lead from a well-formed store
-- to a well-formed store.
pub Reach-IsValid : {s t : DeduplicationStore} → Reach s t → IsValid s → IsValid t
Reach-IsValid here v = v
Reach-IsValid (next r st) v = Step-IsValid st (Reach-IsValid r v)
