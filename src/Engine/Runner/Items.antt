-- ===== src/Engine/Runner/Items.antt =====
-- `_run_iteration` of engine/runner.py: the invocations of an iteration, and the results it keeps.
use justflow.Common.{
  ℕ, zero, suc, ◌+◌, ◌-◌, ◌≤◌, ◌≡◌, refl, ◌∙◌, ap, Bool, true, false, Option, List, [], ◌∷◌, ◌++◌,
  arith, leb→le, ◌&&◌, if◌then◌else◌, length,
}
use justflow.Engine.Exceptions.{Raised, Result, ok, err, guard-true}
use justflow.Engine.Limits.{enforce_limit-le}
use justflow.Engine.Data.Objects.{Object, Entries}
use justflow.Config.Models.{FlowStep, ReferencePath, IterationFailStrategy, stop, skip, collect}
use justflow.Engine.Runner.State.{
  StepDefinition, Workflow, Environment, LoopCheckpoint, IterationKey, IterationResult, item,
}
use justflow.Engine.Runner.Counting.{
  IsEnd, Yields, Yields-pure, Yields->>=, Yields-weaken, Quiet, Quiet-if, Quiet-lift, Quiet-pure,
  Quiet-reads, Yields-quietly, Yields-lift->>=,
}
use justflow.Engine.Runner.Loops.{
  run_item, settled, append_outcome, progressed, run_items, run_iteration, resumed, result_key,
  drop, Progress, strategy_of, ends_chunk, reject_loop_cache,
}
use justflow.Engine.Runner.Attempts.{invoke-counted, checkpoint_during_loop-Quiet}

length-drop :
    {A : Type 0} (n : ℕ) (xs : List A) → n ≤ length xs → n + length (drop n xs) ≡ length xs
unfolding drop
length-drop zero xs h = omega arith
length-drop (suc n) [] h = absurd (omega arith)
length-drop (suc n) (x ∷ xs) h = omega (arith, length-drop n xs (omega arith))

settled-counted :
    (ends : Bool) (r : Result Object) (n : ℕ)
    → IsEnd (λ i. i ≡ 1) (λ v i. i ≡ 1) r n
    → IsEnd (λ i. i ≡ 1) (λ v i. i ≡ 1) (settled ends r) n
settled-counted true (err e) n h = h
settled-counted true (ok v) n h = h
settled-counted false (err e) n h = h
settled-counted false (ok v) n h = h

append_outcome-key :
    (describe : Raised → Object) (s : IterationFailStrategy) (k : IterationKey) (r : Result Object)
    → result_key ((append_outcome describe s k r).0) ≡ k
unfolding append_outcome
append_outcome-key describe stop k (ok v) = refl
append_outcome-key describe skip k (ok v) = refl
append_outcome-key describe collect k (ok v) = refl
append_outcome-key describe stop k (err e) = refl
append_outcome-key describe skip k (err e) = refl
append_outcome-key describe collect k (err e) = refl

append_outcome-le :
    (describe : Raised → Object) (s : IterationFailStrategy) (k : IterationKey) (r : Result Object)
    → (append_outcome describe s k r).1 ≤ 1
unfolding append_outcome
append_outcome-le describe stop k (ok v) = omega arith
append_outcome-le describe skip k (ok v) = omega arith
append_outcome-le describe collect k (ok v) = omega arith
append_outcome-le describe stop k (err e) = omega arith
append_outcome-le describe skip k (err e) = omega arith
append_outcome-le describe collect k (err e) = omega arith

abbrev pub keys_of : List IterationResult → List IterationKey
keys_of [] = []
keys_of (r ∷ rs) = result_key r ∷ keys_of rs

abbrev pub item_keys : List (IterationKey × Object) → List IterationKey
item_keys [] = []
item_keys ((k, v) ∷ items) = k ∷ item_keys items

append_nil : (ks : List IterationKey) → ks ≡ ks ++ []
append_nil [] = refl
append_nil (k ∷ ks) = ap (λ l. k ∷ l) (append_nil ks)

keys_of-append :
    (rs : List IterationResult) (r : IterationResult) (ks : List IterationKey)
    → keys_of (rs ++ r ∷ []) ++ ks ≡ keys_of rs ++ result_key r ∷ ks
keys_of-append [] r ks = refl
keys_of-append (s ∷ rs) r ks = ap (λ l. result_key s ∷ l) (keys_of-append rs r ks)

and-right : (a b : Bool) → a && b ≡ true → b ≡ true
and-right a b h = ground arith

module _ {W : Type 0} (env : Environment W) (workflow : Workflow) (step : FlowStep)
    (step_def : StepDefinition) (input : Object) (globals : Entries) where
  run_item-counted :
      (k : IterationKey) (v : Object)
      → Yields (λ n. n ≡ 1) (λ r n. n ≡ 1) (run_item env workflow step step_def input globals k v)
  unfolding run_item
  run_item-counted k v = record {
    at_end = λ m.
        let (n, h, e) = (invoke-counted env workflow step_def (item step.name k) _ _).at_end m in
        (n, settled-counted _ _ n h, e);
  }

  -- The results keep the items' keys in their order, after those of the items that were done before.
  abbrev pub IsComplete : List (IterationKey × Object) → Progress → Progress → ℕ → Type 0
  IsComplete items p p' n =
      (n ≡ length items)
      × (keys_of p'.results ≡ keys_of p.results ++ item_keys items)
      × (p'.failed ≤ p.failed + length items)

  run_items-IsComplete :
      (chunk_items left offset : ℕ) (items : List (IterationKey × Object)) (p : Progress)
      → Yields
          (λ n. n ≤ length items)
          (IsComplete items p)
          (run_items env workflow step step_def input globals chunk_items left offset items p)
  unfolding run_items
  run_items-IsComplete chunk_items left offset [] p =
      Yields-pure (λ n. n ≤ 0) (IsComplete [] p) p
        (refl, append_nil (keys_of p.results), omega arith)
  run_items-IsComplete chunk_items left offset ((k, v) ∷ items) p =
      Yields->>= (λ n. n ≤ suc (length items)) (IsComplete ((k, v) ∷ items) p) (λ n. n ≡ 1)
        (λ r n. n ≡ 1) _ _ (run_item-counted k v) (λ n e. omega arith)
        (λ outcome n e.
          let p' = progressed env workflow step step_def input globals p k outcome in
          let Raises : ℕ → Type 0 = λ i. n + i ≤ suc (length items) in
          let Rest : Progress → ℕ → Type 0 = λ q i. IsComplete ((k, v) ∷ items) p q (n + i) in
          Yields-quietly Raises Rest _ _
            (Quiet-if (ends_chunk left items) _ _ (checkpoint_during_loop-Quiet env workflow _ _)
              (Quiet-pure tt))
            (omega arith)
            (λ stored.
              Yields-weaken (λ i. i ≤ length items) (IsComplete items p') Raises Rest _
                (run_items-IsComplete chunk_items
                  (if ends_chunk left items then chunk_items else left - 1) (offset + 1) items p')
                (λ i h. omega arith)
                (λ q i h. (
                  omega (arith, h.0),
                  h.1
                      ∙ (keys_of-append p.results _ (item_keys items)
                          ∙ ap (λ j. keys_of p.results ++ j ∷ item_keys items)
                              (append_outcome-key env.describe (strategy_of step) k outcome)),
                  omega (arith, h.2, append_outcome-le env.describe (strategy_of step) k outcome),
                ))))

  pub reject_loop_cache-Quiet : Quiet (reject_loop_cache env workflow step_def)
  unfolding reject_loop_cache
  reject_loop_cache-Quiet = Quiet-lift _

  -- From any state, an iteration ends in a state in which nothing but the number of invocations
  -- differs. Where it returns, it reports as many items as its input has, no more than the limit, and
  -- has made one invocation for each that a checkpoint had not completed; it reports no more failures
  -- than the checkpoint did and the items that were left.
  pub run_iteration-accounted :
      (for_each : ReferencePath) (continuation : Option LoopCheckpoint)
      → Yields
          (λ n. n ≤ workflow.limits.fanout_items)
          (λ r n.
            ((resumed env workflow step step_def input globals continuation).0 + n ≡ (r.1).0)
            × ((r.1).0 ≤ workflow.limits.fanout_items)
            × ((r.1).1
                ≤ ((resumed env workflow step step_def input globals continuation).1).failed + n))
          (run_iteration env workflow step step_def input globals for_each continuation)
  unfolding run_iteration
  run_iteration-accounted for_each continuation =
      let start = resumed env workflow step step_def input globals continuation in
      let Raises : ℕ → Type 0 = λ n. n ≤ workflow.limits.fanout_items in
      let Returns : Object × (ℕ × ℕ) → ℕ → Type 0 = λ r n.
        (start.0 + n ≡ (r.1).0)
        × ((r.1).0 ≤ workflow.limits.fanout_items)
        × ((r.1).1 ≤ (start.1).failed + n) in
      Yields-quietly Raises Returns _ _ reject_loop_cache-Quiet (omega arith) (λ cacheless.
        Yields-quietly Raises Returns _ _ (Quiet-lift _) (omega arith) (λ allowed.
          Yields-quietly Raises Returns _ _ (Quiet-reads _) (omega arith) (λ outputs.
            Yields-quietly Raises Returns _ _ (Quiet-reads _) (omega arith) (λ params.
              Yields-quietly Raises Returns _ _ (Quiet-lift _) (omega arith) (λ value.
                Yields-quietly Raises Returns _ _ (Quiet-lift _) (omega arith) (λ items.
                  Yields-lift->>= Raises Returns _ _ (omega arith) (λ u fits.
                    Yields-lift->>= Raises Returns _ _ (omega arith) (λ u' placed.
                      Yields-quietly Raises Returns _ _ (Quiet-lift _) (omega arith) (λ matched.
                        let limited =
                          enforce_limit-le (length (items.1)) workflow.limits.fanout_items _ fits in
                        let within =
                          leb→le (start.0) (length (items.1))
                            (and-right _ _ (guard-true _ _ placed)) in
                        let dropped = length-drop (start.0) (items.1) within in
                        Yields->>= Raises Returns (λ n. n ≤ length (drop (start.0) (items.1)))
                          (IsComplete (drop (start.0) (items.1)) (start.1)) _ _
                          (run_items-IsComplete _ _ _ _ _) (λ n h. omega (arith, limited, dropped))
                          (λ p n h.
                            Yields-pure (λ i. Raises (n + i)) (λ r i. Returns r (n + i)) _
                              (
                                omega (arith, dropped, h.0),
                                limited,
                                omega (arith, h.0, h.2),
                              )))))))))))
