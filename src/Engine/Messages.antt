-- ===== src/Engine/Messages.antt =====
-- `PendingMessages` of src/justflow/engine/compiler.py: the signals and events that a workflow has
-- received and not taken yet, a queue for each key. The size of the serialized queues is the parameter
-- `byte_count`, and an append that raises leaves the queues as they were.
pub mod Queues
use justflow.Common.{ℕ, ◌+◌, String, Option, none, some, List, [], ◌∷◌, ◌++◌, length}
use justflow.Common.Dict.{Dict, lookup, insert, delete}
use justflow.Engine.Exceptions.{
  key_error, index_error, queued_messages, queued_message_bytes, Result, ok, err, ◌>>=◌, ◌>>◌,
}
use justflow.Engine.Limits.{enforce_limit}
use justflow.Engine.Data.Objects.{Object}

pub record PendingMessages : Type 0 where
  pub signals : Dict (List Object)
  pub events : Dict (List Object)

-- the limits of config/runtime_limits.py on the queues
pub record QueueLimits : Type 0 where
  pub queued_messages : ℕ
  pub queued_message_bytes : ℕ

-- d.get(key, ())
unfoldable pub queue_at : String → Dict (List Object) → List Object
unfolding lookup
queue_at key queues = elim (lookup key queues) [ none ↦ [] | some queue ↦ queue ]

-- {**d, key: [*d.get(key, ()), value]}
unfoldable pub enqueue : String → Object → Dict (List Object) → Dict (List Object)
unfolding queue_at insert
enqueue key value queues = insert key (queue_at key queues ++ value ∷ []) queues

abbrev pub popped :
    String → Dict (List Object) → Option (List Object) → Result (Object × Dict (List Object))
popped key queues none = err key_error
popped key queues (some []) = err index_error
popped key queues (some (value ∷ [])) = ok (value, delete key queues)
popped key queues (some (value ∷ (next ∷ rest))) = ok (value, insert key (next ∷ rest) queues)

-- queue.pop(0), where an empty queue is deleted
unfoldable pub dequeue : String → Dict (List Object) → Result (Object × Dict (List Object))
unfolding lookup insert delete
dequeue key queues = popped key queues (lookup key queues)

unfoldable pub total : Dict (List Object) → ℕ
total [] = 0
total ((key, queue) ∷ queues) = length queue + total queues

unfoldable pub count : PendingMessages → ℕ
unfolding total
count p = total p.signals + total p.events

unfoldable pub pop_signal : String → PendingMessages → Result (Object × PendingMessages)
unfolding dequeue
pop_signal key p =
    dequeue key p.signals >>= λ (value, signals). ok (value, record p { signals = signals })

unfoldable pub pop_event : String → PendingMessages → Result (Object × PendingMessages)
unfolding dequeue
pop_event key p =
    dequeue key p.events >>= λ (value, events). ok (value, record p { events = events })

module _ (byte_count : PendingMessages → Result ℕ) (limits : QueueLimits) where
  -- `validate`, and `_validate_append` on the queues with the new message
  unfoldable pub validate : PendingMessages → Result (Unit {0})
  unfolding count enforce_limit
  validate p = do
    enforce_limit (count p) limits.queued_messages queued_messages
    bytes ← byte_count p
    enforce_limit bytes limits.queued_message_bytes queued_message_bytes

  unfoldable pub append_signal : String → Object → PendingMessages → Result PendingMessages
  unfolding validate enqueue
  append_signal key value p =
      let p' = record p { signals = enqueue key value p.signals } in validate p' >> ok p'

  unfoldable pub append_event : String → Object → PendingMessages → Result PendingMessages
  unfolding validate enqueue
  append_event key value p =
      let p' = record p { events = enqueue key value p.events } in validate p' >> ok p'
