-- ===== src/Engine/Messages/Queues.antt =====
-- The queues of pending messages (engine/compiler.py) as functions from keys to lists.
use mathlib.Core.Path.{subst}
use text.Mathlib.Text.{◌==◌ as str_eq}
use justflow.Common.{
  ℕ, ◌+◌, ◌≤◌, String, ◌≡◌, refl, ap, ◌∙◌, some, inl, inr, List, [], ◌∷◌, ◌++◌, arith,
  if◌then◌else◌, length, length-append, Option-cases,
}
use justflow.Common.Dict.{Dict, lookup, insert, delete, lookup-insert, lookup-delete}
use justflow.Engine.Exceptions.{queued_messages, Result, ok, >>=-eq-ok, >>-eq-ok}
use justflow.Engine.Limits.{enforce_limit, enforce_limit-le}
use justflow.Engine.Data.Objects.{Object}
use justflow.Engine.Messages.{
  PendingMessages, QueueLimits, queue_at, enqueue, dequeue, total, count, pop_signal, validate,
  append_signal,
}

queue_at-insert :
    (k j : String) (q : List Object) (queues : Dict (List Object))
    → queue_at j (insert k q queues) ≡ (if str_eq k j then q else queue_at j queues)
unfolding queue_at
queue_at-insert k j q queues = ground (arith, lookup-insert k j q queues)

queue_at-delete :
    (k j : String) (queues : Dict (List Object))
    → queue_at j (delete k queues) ≡ (if str_eq k j then [] else queue_at j queues)
unfolding queue_at
queue_at-delete k j queues = ground (arith, lookup-delete k j queues)

total-insert :
    (k : String) (q : List Object) (queues : Dict (List Object))
    → total (insert k q queues) + length (queue_at k queues) ≡ total queues + length q
unfolding total insert queue_at lookup
total-insert k q [] = omega arith
total-insert k q ((j, r) ∷ queues) = ground (arith, total-insert k q queues)

total-enqueue :
    (k : String) (v : Object) (queues : Dict (List Object))
    → total (enqueue k v queues) ≡ total queues + 1
unfolding enqueue
total-enqueue k v queues = omega (
  arith,
  total-insert k (queue_at k queues ++ v ∷ []) queues,
  length-append (queue_at k queues) (v ∷ []),
)

-- After an append, the key's queue ends in the message and every other queue is as it was.
abbrev pub Appends : String → Object → (queues queues' : Dict (List Object)) → Type 0
Appends k v queues queues' =
    (j : String)
    → queue_at j queues' ≡ (if str_eq k j then queue_at k queues ++ v ∷ [] else queue_at j queues)

module _ (byte_count : PendingMessages → Result ℕ) (limits : QueueLimits) where
  validated :
      (p : PendingMessages)
      → validate byte_count limits p ≡ ok tt
      → count p ≤ limits.queued_messages
  unfolding validate
  validated p h =
      enforce_limit-le (count p) limits.queued_messages queued_messages
        ((>>-eq-ok (enforce_limit (count p) limits.queued_messages queued_messages) _ h).0)

  abbrev IsAppended : String → Object → (p p' : PendingMessages) → Type 0
  IsAppended k v p p' =
      Appends k v p.signals p'.signals
      × (p'.events ≡ p.events)
      × (count p' ≡ count p + 1)
      × (count p' ≤ limits.queued_messages)

  -- An accepted signal stands last in its key's queue, leaves the other queues and the events as they
  -- were, and leaves one message more, within the limit on messages.
  pub append_signal-Appends :
      (k : String) (v : Object) (p : PendingMessages) {p' : PendingMessages}
      → append_signal byte_count limits k v p ≡ ok p'
      → Appends k v p.signals p'.signals
        × (p'.events ≡ p.events)
        × (count p' ≡ count p + 1)
        × (count p' ≤ limits.queued_messages)
  unfolding append_signal enqueue count
  append_signal-Appends k v p {p'} e =
      let q : PendingMessages = record p { signals = enqueue k v p.signals } in
      let (u, valid, same) = >>=-eq-ok (validate byte_count limits q) (λ _. ok q) e in
      let stored : q ≡ p' = cc in
      subst (IsAppended k v p) stored (
        λ j. queue_at-insert k j (queue_at k p.signals ++ v ∷ []) p.signals,
        refl,
        omega (arith, total-enqueue k v p.signals),
        validated q (cc),
      )

-- What is left where the key's queue has given its first message away.
abbrev pub Leaves : String → List Object → (queues queues' : Dict (List Object)) → Type 0
Leaves k rest queues queues' =
    (j : String) → queue_at j queues' ≡ (if str_eq k j then rest else queue_at j queues)

dequeue-Leaves :
    (k : String) (v : Object) (rest : List Object) (queues : Dict (List Object))
    → queue_at k queues ≡ v ∷ rest
    → (queues' : Dict (List Object)) × (dequeue k queues ≡ ok (v, queues'))
      × Leaves k rest queues queues'
unfolding dequeue queue_at
dequeue-Leaves k v rest queues h = elim (Option-cases (lookup k queues)) [
  | inl missing ↦ absurd (ground arith)
  | inr (q, e) ↦ taken rest (e ∙ ap some (rw (e, queue_at) at h))
]
  where
    taken :
        (rest : List Object)
        → lookup k queues ≡ some (v ∷ rest)
        → (queues' : Dict (List Object)) × (dequeue k queues ≡ ok (v, queues'))
          × Leaves k rest queues queues'
    taken [] e = (delete k queues, unfold dequeue in rw e refl, λ j. queue_at-delete k j queues)
    taken (w ∷ ws) e = (
      insert k (w ∷ ws) queues,
      unfold dequeue in rw e refl,
      λ j. queue_at-insert k j (w ∷ ws) queues,
    )

-- Where messages wait under a key, taking a signal returns the first of them, leaves the others in
-- their order, and leaves the queues of other keys and the events as they were.
pub pop_signal-Leaves :
    (k : String) (v : Object) (rest : List Object) (p : PendingMessages)
    → queue_at k p.signals ≡ v ∷ rest
    → (p' : PendingMessages) × (pop_signal k p ≡ ok (v, p'))
      × Leaves k rest p.signals p'.signals
      × (p'.events ≡ p.events)
unfolding pop_signal
pop_signal-Leaves k v rest p h =
    let (signals, e, leaves) = dequeue-Leaves k v rest p.signals h in
    (record p { signals = signals }, rw e refl, leaves, refl)
