-- ===== src/Configuration/Records/Appending.antt =====
-- What a transition or a checkpoint at the end does to the history of an activation record of
-- configuration/activation.py.
use justflow.Common.{
  ℕ, suc, ◌+◌, ◌≤◌, ◌≡◌, refl, Bool, true, false, ◌||◌, List, [], ◌∷◌, ◌++◌, arith, length,
}
use justflow.Configuration.Records.{
  ActivationState, CheckpointKind, ActivationTransition, ActivationCheckpoint, same_state,
  same_kind, ends_at, continues, is_history, has_checkpoint, are_numbered, are_unique, pending,
  definitions, worker_rollout, worker_readiness, schedules, catalog_routing, worker_routing,
  active_pointer, runtime_index,
}

pub ends_at-append :
    (start : ActivationState) (ts : List ActivationTransition) (t : ActivationTransition)
    (state : ActivationState)
    → ends_at start (ts ++ t ∷ []) state ≡ same_state state t.to_state
unfolding ends_at
ends_at-append start [] t state = refl
ends_at-append start (u ∷ ts) t state = ends_at-append u.to_state ts t state

pub continues-append :
    (i : ℕ) (p : ActivationState) (ts : List ActivationTransition) (t : ActivationTransition)
    → continues i p ts ≡ true
    → ends_at p ts t.from_state ≡ true
    → t.sequence ≡ i + length ts
    → continues i p (ts ++ t ∷ []) ≡ true
unfolding continues ends_at
continues-append i p [] t h e n = ground arith
continues-append i p (u ∷ ts) t h e n = ground (arith, continues-append (suc i) u.to_state ts t)

pub is_history-append :
    (ts : List ActivationTransition) (t : ActivationTransition)
    → is_history ts ≡ true
    → ends_at pending ts t.from_state ≡ true
    → t.sequence ≡ length ts + 1
    → is_history (ts ++ t ∷ []) ≡ true
unfolding ends_at continues
is_history-append [] t h e n = ground arith
is_history-append (u ∷ ts) t h e n = ground (arith, continues-append 2 u.to_state ts t)

pub has_checkpoint-append :
    (k : CheckpointKind) (cs : List ActivationCheckpoint) (c : ActivationCheckpoint)
    → has_checkpoint k (cs ++ c ∷ []) ≡ (has_checkpoint k cs || same_kind c.kind k)
unfolding has_checkpoint
has_checkpoint-append k [] c = ground arith
has_checkpoint-append k (d ∷ cs) c = ground (arith, has_checkpoint-append k cs c)

pub are_numbered-append :
    (i : ℕ) (cs : List ActivationCheckpoint) (c : ActivationCheckpoint)
    → are_numbered i cs ≡ true
    → c.sequence ≡ i + length cs
    → are_numbered i (cs ++ c ∷ []) ≡ true
unfolding are_numbered
are_numbered-append i [] c h n = ground arith
are_numbered-append i (d ∷ cs) c h n = ground (arith, are_numbered-append (suc i) cs c)

pub are_unique-append :
    (cs : List ActivationCheckpoint) (c : ActivationCheckpoint)
    → are_unique cs ≡ true
    → has_checkpoint c.kind cs ≡ false
    → are_unique (cs ++ c ∷ []) ≡ true
unfolding are_unique has_checkpoint
are_unique-append [] c h n = refl
are_unique-append (d ∷ cs) c h n =
    ground (arith, are_unique-append cs c, has_checkpoint-append d.kind cs c)

-- the kinds of the checkpoints, counted
abbrev bit : Bool → ℕ
bit true = 1
bit false = 0

abbrev kinds : List ActivationCheckpoint → ℕ
unfolding has_checkpoint
kinds cs =
    bit (has_checkpoint definitions cs)
    + bit (has_checkpoint worker_rollout cs)
    + bit (has_checkpoint worker_readiness cs)
    + bit (has_checkpoint schedules cs)
    + bit (has_checkpoint catalog_routing cs)
    + bit (has_checkpoint worker_routing cs)
    + bit (has_checkpoint active_pointer cs)
    + bit (has_checkpoint runtime_index cs)

bit-le : (b : Bool) → bit b ≤ 1
bit-le true = omega arith
bit-le false = omega arith

kinds-grow :
    (k : CheckpointKind) (c : ActivationCheckpoint) (cs : List ActivationCheckpoint)
    → c.kind ≡ k
    → has_checkpoint k cs ≡ false
    → kinds (c ∷ cs) ≡ suc (kinds cs)
unfolding has_checkpoint
kinds-grow definitions c cs e h = rw (e, h) (omega arith)
kinds-grow worker_rollout c cs e h = rw (e, h) (omega arith)
kinds-grow worker_readiness c cs e h = rw (e, h) (omega arith)
kinds-grow schedules c cs e h = rw (e, h) (omega arith)
kinds-grow catalog_routing c cs e h = rw (e, h) (omega arith)
kinds-grow worker_routing c cs e h = rw (e, h) (omega arith)
kinds-grow active_pointer c cs e h = rw (e, h) (omega arith)
kinds-grow runtime_index c cs e h = rw (e, h) (omega arith)

length-kinds : (cs : List ActivationCheckpoint) → are_unique cs ≡ true → length cs ≤ kinds cs
unfolding are_unique has_checkpoint
length-kinds [] h = omega arith
length-kinds (c ∷ cs) h = ground (arith, length-kinds cs, kinds-grow c.kind c cs refl)

-- Checkpoints of different kinds are eight at most.
pub length-kind-le : (cs : List ActivationCheckpoint) → are_unique cs ≡ true → length cs ≤ 8
unfolding has_checkpoint
length-kind-le cs h = omega (
  arith,
  length-kinds cs h,
  bit-le (has_checkpoint definitions cs),
  bit-le (has_checkpoint worker_rollout cs),
  bit-le (has_checkpoint worker_readiness cs),
  bit-le (has_checkpoint schedules cs),
  bit-le (has_checkpoint catalog_routing cs),
  bit-le (has_checkpoint worker_routing cs),
  bit-le (has_checkpoint active_pointer cs),
  bit-le (has_checkpoint runtime_index cs),
)
