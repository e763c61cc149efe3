-- ===== src/Engine/Backoff.antt =====
-- src/justflow/engine/consumer_backoff.py: the delays between the reconnects of a consumer. A delay is
-- a natural number of ticks; the two products of floats are functions of the policy.
use justflow.Common.{
  ℕ, zero, suc, ◌+◌, ◌≤◌, ◌≡◌, refl, ◌∙◌, ap, Bool, Option, none, some, inl, inr, Bool-cases, List,
  [], ◌∷◌, All, length, leb, arith, if◌then◌else◌,
}
use justflow.Engine.Exceptions.{Result, ok, err, value_error}

-- `grow` multiplies by the multiplier, and `vary` by the jitter factor of a sample; `middle` is the
-- sample 0.5, which stands where the jitter fraction is zero.
pub record ReconnectPolicy : Type 0 where
  pub initial_delay : ℕ
  pub max_delay : ℕ
  pub jitters : Bool
  pub middle : ℕ
  pub grow : ℕ → ℕ
  pub vary : (sample : ℕ) → ℕ → ℕ

pub record ReconnectBackoff : Type 0 where
  pub next_base_delay : ℕ
  pub failure_count : ℕ

abbrev pub min : ℕ → ℕ → ℕ
min a b = if leb a b then a else b

unfoldable pub new_backoff : ReconnectPolicy → ReconnectBackoff
new_backoff policy = record { next_base_delay = policy.initial_delay; failure_count = 0 }

-- A sample out of range is nothing.
unfoldable pub next_delay :
    ReconnectPolicy → (sample : Option ℕ) → ReconnectBackoff → Result (ℕ × ReconnectBackoff)
next_delay policy sample b = elim (if policy.jitters then sample else some policy.middle) [
  | none ↦ err value_error
  | some drawn ↦ ok (
    min (policy.vary drawn b.next_base_delay) policy.max_delay,
    record {
      next_base_delay = min (policy.grow b.next_base_delay) policy.max_delay;
      failure_count = b.failure_count + 1;
    },
  )
]

unfoldable pub reset : ReconnectPolicy → ReconnectBackoff → ReconnectBackoff
reset policy b = record { next_base_delay = policy.initial_delay; failure_count = 0 }

-- The delays of failures in a row, each with its sample.
unfoldable pub after_failures :
    ReconnectPolicy → List ℕ → ReconnectBackoff → List ℕ × ReconnectBackoff
unfolding next_delay
after_failures policy [] b = ([], b)
after_failures policy (drawn ∷ samples) b = elim (next_delay policy (some drawn) b) [
  | err e ↦ ([], b)
  | ok (delay, b') ↦ let (delays, b'') = after_failures policy samples b' in (delay ∷ delays, b'')
]

-- the initial delay, multiplied n times
abbrev pub grown : ReconnectPolicy → ℕ → ℕ
grown policy zero = policy.initial_delay
grown policy (suc n) = policy.grow (grown policy n)

-- A product with the multiplier, which is above 1: it keeps the order and does not get smaller.
pub record IsGrowth (grow : ℕ → ℕ) : Type 0 where
  pub larger : (n : ℕ) → n ≤ grow n
  pub monotone : (m n : ℕ) → m ≤ n → grow m ≤ grow n

module _ (policy : ReconnectPolicy) (growth : IsGrowth policy.grow) where
  -- The base after n failures: the initial delay multiplied n times, up to the maximum.
  abbrev base : ℕ → ReconnectBackoff
  base n = record { next_base_delay = min (grown policy n) policy.max_delay; failure_count = n }

  abbrev IsLimited : ℕ → Type 0
  IsLimited delay = delay ≤ policy.max_delay

  min-le : (a b : ℕ) → min a b ≤ b
  min-le a b = ground arith

  grow-min :
      (n : ℕ)
      → min (policy.grow (min n policy.max_delay)) policy.max_delay
        ≡ min (policy.grow n) policy.max_delay
  grow-min n = ground (arith, growth.larger policy.max_delay, growth.monotone policy.max_delay n)

  chosen :
      (drawn : ℕ) → (d : ℕ) × ((if policy.jitters then some drawn else some policy.middle) ≡ some d)
  chosen drawn = elim (Bool-cases policy.jitters) [
    | inl drawing ↦ (drawn, rw drawing refl)
    | inr steady ↦ (policy.middle, rw steady refl)
  ]

  next_delay-base :
      (n drawn : ℕ)
      → (delay : ℕ) × (delay ≤ policy.max_delay)
        × (next_delay policy (some drawn) (base n) ≡ ok (delay, base (suc n)))
  unfolding next_delay
  next_delay-base n drawn =
      let (d, e) = chosen drawn in
      let delay = min (policy.vary d (base n).next_base_delay) policy.max_delay in
      (
        delay,
        min-le _ _,
        rw (next_delay, e)
            (ap (λ b. ok (delay, record { next_base_delay = b; failure_count = n + 1 }))
                (grow-min (grown policy n))
              ∙ ap
                  (λ k. ok (
                    delay,
                    record { next_base_delay = (base (suc n)).next_base_delay; failure_count = k },
                  ))
                  (omega arith)),
      )

  after_failures-base :
      (n : ℕ) (samples : List ℕ)
      → All IsLimited ((after_failures policy samples (base n)).0)
        × (length ((after_failures policy samples (base n)).0) ≡ length samples)
        × ((after_failures policy samples (base n)).1 ≡ base (n + length samples))
  unfolding after_failures
  after_failures-base n [] = (tt, refl, ap base (omega arith))
  after_failures-base n (drawn ∷ samples) =
      let (delay, le, e) = next_delay-base n drawn in
      let (limited, counted, last) = after_failures-base (suc n) samples in
      rw (e, after_failures) ((le, limited), omega (arith, counted), last ∙ ap base (omega arith))

  -- However a new backoff's failures are drawn, the delays do not pass the maximum, and after n of them the
  -- base is the initial delay multiplied n times, up to the maximum.
  pub after_failures-limited :
      (samples : List ℕ)
      → policy.initial_delay ≤ policy.max_delay
      → All
          (λ delay. delay ≤ policy.max_delay)
          ((after_failures policy samples (new_backoff policy)).0)
        × ((after_failures policy samples (new_backoff policy)).1 ≡ record {
          next_base_delay = min (grown policy (length samples)) policy.max_delay;
          failure_count = length samples;
        })
  unfolding new_backoff
  after_failures-limited samples h =
      let start : new_backoff policy ≡ base 0 =
        unfold new_backoff in
        ap (λ n. record { next_base_delay = n; failure_count = 0 }) (within h) in
      let (limited, counted, last) = after_failures-base 0 samples in
      rw start (limited, last ∙ ap base (omega arith))
    where
      within :
          policy.initial_delay ≤ policy.max_delay
          → policy.initial_delay ≡ min policy.initial_delay policy.max_delay
      within h = ground arith
