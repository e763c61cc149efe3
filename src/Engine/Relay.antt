-- ===== src/Engine/Relay.antt =====
-- src/justflow/engine/response_relay.py: the relay of step responses and events to their workflows, over
-- the store of deliveries and the backoff. The Temporal client, the consumer, the metrics, the parser of
-- envelopes and the clock are the environment's. An `await` lets the other deliveries act on the store:
-- `admit` stands for what a delivery does before it signals, `finish` for what it does after, and `release`
-- for the `finally`.
pub mod Claims
pub mod Holding
pub mod Exclusion
pub mod Redelivery
use text.Mathlib.Text.{◌==◌ as str_eq}
use justflow.Common.{
  ℕ, ◌+◌, String, Bool, true, false, not, ◌&&◌, ◌||◌, Option, none, some, List, [], ◌∷◌, leb,
  if◌then◌else◌,
}
use justflow.Engine.Exceptions.{Raised, cancelled, Result, ok, err, ◌>>=◌}
use justflow.Engine.Data.Objects.{Object}
use justflow.Engine.Deduplication.{
  DeduplicationStore, DeliveryClaim, ClaimOutcome, claimed, duplicate, completed, claim, complete,
  release, clear,
}
use justflow.Engine.Backoff.{ReconnectPolicy, ReconnectBackoff, next_delay, reset}

-- brokers/base.py
pub data ProcessingOutcome : Type 0 where
  ack : ProcessingOutcome
  retry dead_letter : (reason : String) → ProcessingOutcome

pub record ReceivedMessage : Type 0 where
  pub body : String
  pub broker_message_id : String
  pub delivery_attempt : ℕ

-- sdk/message_contract.py, the fields that the relay reads
pub data StepResponseBody : Type 0 where
  step_success : (output : Object) → StepResponseBody
  step_error : (code message : String) (retryable : Bool) → StepResponseBody

pub data Content : Type 0 where
  step_response : (step_invocation_id step_name action : String) (body : StepResponseBody) → Content
  event : (event_name : String) (payload : Object) → Content
  other : Content

pub record Envelope : Type 0 where
  pub message_id : String
  pub workflow_id : String
  pub workflow_run_id : String
  pub scope_digest : Option String
  pub content : Content

pub data Signal : Type 0 where
  step_response_signal :
      (request_id step_name action : String) (succeeded : Bool) (step_response : Option Object)
      (error : Option (String × String × Bool))
      → Signal
  workflow_event : (signal : String) (payload : Object) → Signal

pub data SignalResult : Type 0 where
  signalled not_found refused interrupted : SignalResult

-- scope.py: a scope is its digest, and whether it is LOCAL_RUNTIME_SCOPE
pub record RuntimeScope : Type 0 where
  pub digest : String
  pub is_local : Bool

unfoldable pub owns : Option String → RuntimeScope → Bool
owns none scope = scope.is_local
owns (some observed) scope = str_eq observed scope.digest

-- `signal` builds the payload and sends it; `record_queue` gets the outcome and whether the message was
-- redelivered. No bytes: the body has no encoding. No envelope: JSONDecodeError or ValidationError.
pub record RelayEnvironment (W : Type 0) : Type 0 where
  pub scope : RuntimeScope
  pub signal_payload_bytes : ℕ
  pub policy : ReconnectPolicy
  pub utf8_bytes : String → Option ℕ
  pub parse_envelope : String → Option Envelope
  pub belongs_to_scope : String → Bool
  pub now : W → ℕ
  pub receive : W → Result (List ReceivedMessage) × W
  pub signal : (workflow_id workflow_run_id : String) → Signal → W → SignalResult × W
  pub record_queue : ProcessingOutcome → Bool → W → W
  pub settle : ReceivedMessage → ProcessingOutcome → W → Result (Unit {0}) × W
  pub readiness_callback : Bool → W → W
  pub close : W → Result (Unit {0}) × W
  pub sample : W → Option ℕ
  pub sleep : ℕ → W → Result (Unit {0}) × W

pub record Relay : Type 0 where
  pub store : DeduplicationStore
  pub running : Bool
  pub ready : Bool
  pub reported_ready : Bool
  pub backoff : ReconnectBackoff

-- what a delivery comes to before it signals
pub data Admission : Type 0 where
  settled : ProcessingOutcome → Admission
  working : DeliveryClaim → Envelope → Admission

abbrev pub is_supported : Content → Bool
is_supported other = false
is_supported _ = true

abbrev pub error_signal : StepResponseBody → Option Object × Option (String × String × Bool)
error_signal (step_success output) = (some output, none)
error_signal (step_error code message retryable) = (none, some (code, message, retryable))

abbrev pub is_success : StepResponseBody → Bool
is_success (step_success output) = true
is_success (step_error code message retryable) = false

abbrev pub outcome_of_signal : SignalResult → Result ProcessingOutcome
outcome_of_signal signalled = ok ack
outcome_of_signal not_found = ok (dead_letter "workflow execution not found")
outcome_of_signal refused = ok (retry "Temporal signal failed")
outcome_of_signal interrupted = err cancelled

-- what the `try` of `_process_message` does to the store after the signal; the `finally` releases the claim
unfoldable pub finish :
    (now : ℕ) → DeliveryClaim → Result ProcessingOutcome → DeduplicationStore → DeduplicationStore
unfolding complete
finish now c (ok ack) s = complete now c s
finish now c _ s = s

module _ {W : Type 0} (env : RelayEnvironment W) where
  abbrev pub fits : Option ℕ → Bool
  fits none = false
  fits (some bytes) = leb bytes env.signal_payload_bytes

  abbrev pub is_scoped : Envelope → Bool
  is_scoped envelope = elim envelope.scope_digest [
    | none ↦ false
    | some digest ↦ str_eq digest env.scope.digest && env.belongs_to_scope envelope.workflow_id
  ]

  abbrev pub accepted : Option Envelope → Option Envelope
  accepted none = none
  accepted (some envelope) =
      if is_supported envelope.content
        && (owns envelope.scope_digest env.scope || is_scoped envelope)
      then some envelope
      else none

  -- the first `try` of `_process_message`
  unfoldable pub read_envelope : String → Option Envelope
  unfolding owns
  read_envelope body =
      if fits (env.utf8_bytes body) then accepted (env.parse_envelope body) else none

  abbrev pub admission : Envelope → ClaimOutcome → Admission
  admission envelope (claimed c) = working c envelope
  admission envelope (duplicate completed) = settled ack
  admission envelope (duplicate d) =
      settled (retry "response delivery is in flight or capacity is exhausted")

  unfoldable pub admit :
      (now : ℕ) → ReceivedMessage → DeduplicationStore → Result (Admission × DeduplicationStore)
  unfolding read_envelope claim
  admit now message s = elim (read_envelope message.body) [
    | none ↦ ok (settled (dead_letter "malformed response envelope"), s)
    | some envelope ↦ claim now envelope.message_id s >>= λ r. ok (admission envelope (r.0), r.1)
  ]

  unfoldable pub deliver : Envelope → W → Result ProcessingOutcome × W
  deliver envelope w = elim envelope.content [
    | step_response invocation step_name action body ↦
        let (response, error) = error_signal body in
        let (r, w') =
          env.signal envelope.workflow_id envelope.workflow_run_id
            (step_response_signal invocation step_name action (is_success body) response error) w in
        (outcome_of_signal r, w')
    | event name payload ↦
        let (r, w') =
          env.signal envelope.workflow_id envelope.workflow_run_id (workflow_event name payload)
            w in
        (outcome_of_signal r, w')
    | other ↦ (ok (retry "Temporal signal failed"), w)
  ]

  abbrev pub work :
      Result (Admission × DeduplicationStore)
      → DeduplicationStore
      → W
      → Result ProcessingOutcome × DeduplicationStore × W
  work (err e) s w = (err e, s, w)
  work (ok (settled outcome, s')) s w = (ok outcome, s', w)
  work (ok (working c envelope, s')) s w =
      let (outcome, w') = deliver envelope w in
      (outcome, release c (finish (env.now w') c outcome s'), w')

  -- `_process_message`, where no other delivery acts on the store meanwhile
  unfoldable pub process_message :
      ReceivedMessage → DeduplicationStore → W → Result ProcessingOutcome × DeduplicationStore × W
  unfolding admit deliver finish release
  process_message message s w = work (admit (env.now w) message s) s w

  abbrev pub settle_outcome : ReceivedMessage → Result ProcessingOutcome → W → Result (Unit {0}) × W
  settle_outcome message (err e) w = (err e, w)
  settle_outcome message (ok outcome) w =
      env.settle message outcome (env.record_queue outcome (not (leb message.delivery_attempt 1)) w)

  unfoldable pub handle_delivery :
      ReceivedMessage → DeduplicationStore → W → Result (Unit {0}) × DeduplicationStore × W
  unfolding process_message
  handle_delivery message s w =
      let (outcome, s', w') = process_message message s w in
      let (r, w'') = settle_outcome message outcome w' in (r, s', w'')

  -- the deliveries of a poll, one after another; what they raise is logged
  unfoldable pub handle_deliveries :
      List ReceivedMessage → DeduplicationStore → W → DeduplicationStore × W
  unfolding handle_delivery
  handle_deliveries [] s w = (s, w)
  handle_deliveries (message ∷ messages) s w =
      let (r, s', w') = handle_delivery message s w in handle_deliveries messages s' w'

  abbrev pub after_receive :
      Result (List ReceivedMessage)
      → DeduplicationStore
      → W
      → Result (Unit {0}) × DeduplicationStore × W
  after_receive (err e) s w = (err e, s, w)
  after_receive (ok messages) s w = let (s', w') = handle_deliveries messages s w in (ok tt, s', w')

  unfoldable pub poll_once : DeduplicationStore → W → Result (Unit {0}) × DeduplicationStore × W
  unfolding handle_deliveries
  poll_once s w = let (r, w') = env.receive w in after_receive r s w'

  abbrev pub same : Bool → Bool → Bool
  same true b = b
  same false b = not b

  unfoldable pub set_ready : Bool → Relay → W → Relay × W
  set_ready ready relay w =
      if same ready relay.reported_ready
      then (record relay { ready = ready }, w)
      else (record relay { ready = ready; reported_ready = ready }, env.readiness_callback ready w)

  -- the `except` of `start`
  unfoldable pub retry_later : Relay → W → Result (Unit {0}) × Relay × W
  unfolding set_ready next_delay
  retry_later relay w =
      let (relay', w') = set_ready false relay w in
      elim (next_delay env.policy (env.sample w') relay'.backoff) [
        | err e ↦ (err e, relay', w')
        | ok (delay, backoff) ↦
            let (r, w'') = env.sleep delay w' in (r, record relay' { backoff = backoff }, w'')
      ]

  abbrev pub after_poll : Result (Unit {0}) → Relay → W → Result (Unit {0}) × Relay × W
  after_poll (err cancelled) relay w = (err cancelled, relay, w)
  after_poll (err e) relay w = retry_later relay w
  after_poll (ok u) relay w =
      let rested : Relay = record relay { backoff = reset env.policy relay.backoff } in
      if rested.running
      then (let (relay', w') = set_ready true rested w in (ok tt, relay', w'))
      else (ok tt, rested, w)

  -- one round of the loop of `start`
  unfoldable pub poll_round : Relay → W → Result (Unit {0}) × Relay × W
  unfolding poll_once retry_later set_ready reset
  poll_round relay w =
      let (r, store, w') = poll_once relay.store w in
      after_poll r (record relay { store = store }) w'

  abbrev pub after_close : Result (Unit {0}) → Relay → Relay
  after_close (err e) relay = relay
  after_close (ok u) relay = record relay { store = clear relay.store }

  unfoldable pub stop : Relay → W → Result (Unit {0}) × Relay × W
  unfolding set_ready clear
  stop relay w =
      let (relay', w') = set_ready false (record relay { running = false }) w in
      let (r, w'') = env.close w' in (r, after_close r relay', w'')
