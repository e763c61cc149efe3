-- ===== src/Tests/Queues.antt =====
-- The pending messages of engine/compiler.py on fixed data.
use justflow.Common.{◌+◌, ◌≤◌, ◌≡◌, refl, [], ◌∷◌}
use justflow.Common.Int.{pos}
use justflow.Engine.Exceptions.{ok}
use justflow.Engine.Data.Objects.{int, null}
use justflow.Engine.Messages.{
  PendingMessages, QueueLimits, queue_at, count, pop_signal, append_signal,
}
use justflow.Engine.Messages.Queues.{Appends, Leaves, append_signal-Appends, pop_signal-Leaves}

abbrev two_messages : QueueLimits
two_messages = record { queued_messages = 2; queued_message_bytes = 100 }

abbrev one_waiting : PendingMessages
one_waiting = record { signals = ("paid", int (pos 1) ∷ []) ∷ []; events = [] }

abbrev both_waiting : PendingMessages
both_waiting = record { signals = ("paid", int (pos 1) ∷ null ∷ []) ∷ []; events = [] }

append_run : append_signal (λ p. ok 10) two_messages "paid" null one_waiting ≡ ok both_waiting
unfolding append_signal
append_run = refl

append_signal-Appends_example :
    Appends "paid" null one_waiting.signals both_waiting.signals
    × (both_waiting.events ≡ one_waiting.events)
    × (count both_waiting ≡ count one_waiting + 1)
    × (count both_waiting ≤ 2)
append_signal-Appends_example =
    append_signal-Appends (λ p. ok 10) two_messages "paid" null one_waiting append_run

pop_signal-Leaves_example :
    (p' : PendingMessages) × (pop_signal "paid" both_waiting ≡ ok (int (pos 1), p'))
    × Leaves "paid" (null ∷ []) both_waiting.signals p'.signals
    × (p'.events ≡ both_waiting.events)
unfolding queue_at
pop_signal-Leaves_example = pop_signal-Leaves "paid" (int (pos 1)) (null ∷ []) both_waiting refl
