-- ===== src/Config/Validated.antt =====
-- The validators of a flow step (config/models.py), and what the runner needs of a step.
use justflow.Common.{◌≡◌, Bool, true, false, not, ◌&&◌, ◌||◌, ◌⊎◌, ◌+◌, ◌==◌, arith}
use justflow.Engine.Exceptions.{value_error, Result, ok, guard, guard-true, ◌>>◌, >>-eq-ok}
use justflow.Config.Models.{
  FlowStep, present, branches, count, validate_until, validate_running_step, validate_flow_step,
}

-- A step that may run does exactly one thing and has somewhere to go; a repetition has an operation
-- and a bound; a parallel iteration has items and a bound.
pub record IsRunnable (s : FlowStep) : Type 0 where
  pub one_kind :
      ((present s.op ≡ true) × (present s.wait_for ≡ false) × (present s.sleep_sec ≡ false))
      ⊎ ((present s.op ≡ false) × (present s.wait_for ≡ true) × (present s.sleep_sec ≡ false))
      ⊎ ((present s.op ≡ false) × (present s.wait_for ≡ false) × (present s.sleep_sec ≡ true))
  pub onward : (present s.then_step ≡ true) ⊎ (branches s.on_result ≡ true)
  pub repetition :
      present s.until ≡ true
      → (present s.op ≡ true) × (present s.for_each ≡ false) × (present s.max_iterations ≡ true)
  pub concurrency :
      s.parallel ≡ true → (present s.for_each ≡ true) × (present s.max_concurrency ≡ true)

one_of :
    (a b c : Bool)
    → count a + count b + count c == 1 ≡ true
    → ((a ≡ true) × (b ≡ false) × (c ≡ false))
      ⊎ ((a ≡ false) × (b ≡ true) × (c ≡ false))
      ⊎ ((a ≡ false) × (b ≡ false) × (c ≡ true))
one_of a b c h = ground arith

either : (a b : Bool) → not (not a && not b) ≡ true → (a ≡ true) ⊎ (b ≡ true)
either a b h = ground arith

needs : (a b : Bool) → not (a && not b) ≡ true → a ≡ true → b ≡ true
needs a b h e = ground arith

bounded_repetition :
    (s : FlowStep)
    → validate_until s ≡ ok tt
    → present s.until ≡ true
    → (present s.op ≡ true) × (present s.for_each ≡ false) × (present s.max_iterations ≡ true)
unfolding validate_until
bounded_repetition s h u = ground arith

passes :
    (b : Bool) (k : Result (Unit {0}))
    → (guard b value_error >> k) ≡ ok tt
    → (b ≡ true) × (k ≡ ok tt)
passes b k h =
    let (g, rest) = >>-eq-ok (guard b value_error) k h in (guard-true b value_error g, rest)

running-IsRunnable : (s : FlowStep) → validate_running_step s ≡ ok tt → IsRunnable s
unfolding validate_running_step
running-IsRunnable s h =
    let (one, h1) =
      passes (count (present s.op) + count (present s.wait_for) + count (present s.sleep_sec) == 1)
        _ h in
    let (_, h2) =
      passes
        (not (
          (present s.wait_for || present s.sleep_sec)
          && (present s.for_each || present s.condition)))
        _ h1 in
    let (_, h3) =
      passes (not (present s.on_failure && (present s.wait_for || present s.sleep_sec))) _ h2 in
    let (_, h4) =
      passes (not (present s.sleep_sec && (branches s.on_result || present s.output))) _ h3 in
    let (repeats, h5) = >>-eq-ok (validate_until s) _ h4 in
    let (_, h6) =
      passes (not (present s.then_step && branches s.on_result && not (present s.condition))) _
        h5 in
    let (_, h7) = passes (not (present s.condition && not (present s.then_step))) _ h6 in
    let (has_items, h8) = passes (not (s.parallel && not (present s.for_each))) _ h7 in
    let (has_bound, h9) = passes (not (s.parallel && not (present s.max_concurrency))) _ h8 in
    let (_, leads_on) = passes (not (present s.max_concurrency && not s.parallel)) _ h9 in
    record {
      one_kind = one_of _ _ _ one;
      onward = either _ _ (
          guard-true (not (not (present s.then_step) && not (branches s.on_result))) value_error
            leads_on);
      repetition = bounded_repetition s repeats;
      concurrency = λ p. (needs _ _ has_items p, needs _ _ has_bound p);
    }

-- A step that is not terminal and passes the validation does exactly one of running an operation,
-- waiting and sleeping; it has a `then` or branches; under `until` it has an operation, no `for_each`
-- and a maximum of iterations; a parallel one has `for_each` and a maximum of concurrency.
pub validate_flow_step-IsRunnable :
    (s : FlowStep) → s.terminal ≡ false → validate_flow_step s ≡ ok tt → IsRunnable s
unfolding validate_flow_step
validate_flow_step-IsRunnable s t h = running-IsRunnable s (rw t at h)
