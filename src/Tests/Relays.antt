-- ===== src/Tests/Relays.antt =====
-- engine/response_relay.py and engine/consumer_backoff.py on fixed data.
use justflow.Common.{ℕ, ◌+◌, ◌≤◌, ◌≡◌, refl, true, none, some, [], ◌∷◌, All, arith}
use justflow.Common.Dict.{insert, contains}
use justflow.Engine.Exceptions.{ok}
use justflow.Engine.Data.Objects.{dict, end}
use justflow.Engine.Deduplication.{DeduplicationStore, DeliveryClaim, claim, release, expire, evict}
use justflow.Engine.Backoff.{
  ReconnectPolicy, IsGrowth, new_backoff, after_failures, after_failures-limited,
}
use justflow.Engine.Relay.{
  event, Envelope, RelayEnvironment, ReceivedMessage, ack, signalled, settled, working, owns,
  read_envelope, admit, finish,
}
use justflow.Engine.Relay.Claims.{IsExclusive}
use justflow.Engine.Relay.Exclusion.{begins, here, next, Reach-IsExclusive}
use justflow.Engine.Relay.Redelivery.{admit-finish}

-- The relay: every body is the same event, and Temporal takes every signal.
abbrev envelope : Envelope
envelope = record {
  message_id = "m";
  workflow_id = "w";
  workflow_run_id = "r";
  scope_digest = none;
  content = event "approved" (dict end);
}

abbrev policy : ReconnectPolicy
policy = record {
  initial_delay = 2;
  max_delay = 10;
  jitters = true;
  middle = 5;
  grow = λ n. n + n;
  vary = λ drawn n. n + drawn;
}

abbrev relay_env : RelayEnvironment ℕ
relay_env = record {
  scope = record { digest = "d"; is_local = true };
  signal_payload_bytes = 100;
  policy = policy;
  utf8_bytes = λ text. some 10;
  parse_envelope = λ text. some envelope;
  belongs_to_scope = λ identity. true;
  now = λ n. n;
  receive = λ n. (ok [], n);
  signal = λ w r s n. (signalled, n + 1);
  record_queue = λ outcome redelivered n. n;
  settle = λ m outcome n. (ok tt, n);
  readiness_callback = λ ready n. n;
  close = λ n. (ok tt, n);
  sample = λ n. some 1;
  sleep = λ delay n. (ok tt, n + delay);
}

abbrev message : ReceivedMessage
message = record { body = "{}"; broker_message_id = "b"; delivery_attempt = 1 }

abbrev empty_store : DeduplicationStore
empty_store = record {
  capacity = 2;
  retention_seconds = 10;
  entries = [];
  pending = [];
  next_identity = 0;
}

abbrev first_claim : DeliveryClaim
first_claim = record { message_id = "m"; identity = 0 }

abbrev one_pending : DeduplicationStore
one_pending = record empty_store { pending = ("m", first_claim) ∷ []; next_identity = 1 }

admit_run : admit relay_env 0 message empty_store ≡ ok (working first_claim envelope, one_pending)
unfolding admit read_envelope owns claim expire evict contains insert
admit_run = refl

admit-finish_example :
    ((s : DeduplicationStore) × (admit relay_env 5 message
          (finish 1 first_claim (ok ack) one_pending)
        ≡ ok (settled ack, s)))
    × ((s : DeduplicationStore) × (admit relay_env 5 message
            (release first_claim (finish 1 first_claim (ok ack) one_pending))
          ≡ ok (settled ack, s)))
admit-finish_example = admit-finish relay_env 0 message empty_store admit_run 1 5 (omega arith)

Reach-IsExclusive_example : IsExclusive one_pending (first_claim ∷ [])
Reach-IsExclusive_example =
    Reach-IsExclusive relay_env (next here (begins 0 message first_claim envelope admit_run))

policy-IsGrowth : IsGrowth policy.grow
policy-IsGrowth = record { larger = λ n. omega arith; monotone = λ m n h. omega (arith, h) }

after_failures-limited_example :
    All (λ delay. delay ≤ 10) ((after_failures policy (1 ∷ 2 ∷ 3 ∷ []) (new_backoff policy)).0)
    × ((after_failures policy (1 ∷ 2 ∷ 3 ∷ []) (new_backoff policy)).1
        ≡ record { next_base_delay = 10; failure_count = 3 })
after_failures-limited_example =
    after_failures-limited policy policy-IsGrowth (1 ∷ 2 ∷ 3 ∷ []) (omega arith)
