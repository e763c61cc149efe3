-- ===== src/Engine/Worklist/Reaches.antt =====
-- The worklist loop of engine/runner.py, and the names that successors lead to.
use mathlib.Core.Path.{subst}
use mathlib.Core.Logic.{◌↔◌}
use text.Mathlib.Text.{◌==◌ as str_eq}
use text.Mathlib.TextEquality.{eq_iff}
use justflow.Common.{
  ℕ, zero, suc, ◌+◌, ◌≤◌, ◌<◌, String, ◌≡◌, refl, sym, ◌∙◌, Bool, true, false, ◌||◌, Option, none,
  some, inl, inr, List, [], ◌∷◌, arith, length, Bool-cases, Option-cases,
}
use justflow.Engine.Worklist.{member, push_all, explore, weight, enough_fuel}

abbrev pub In : String → List String → Type 0
In t xs = member t xs ≡ true

member-push_all :
    (t : String) (xs ys : List String) → member t (push_all xs ys) ≡ member t xs || member t ys
unfolding member push_all
member-push_all t [] ys = refl
member-push_all t (x ∷ xs) ys = ground (arith, member-push_all t xs (x ∷ ys))

length-push_all : (xs ys : List String) → length (push_all xs ys) ≡ length xs + length ys
unfolding push_all
length-push_all [] ys = omega arith
length-push_all (x ∷ xs) ys = omega (arith, length-push_all xs (x ∷ ys))

pub In-head : (x : String) (xs : List String) → In x (x ∷ xs)
unfolding member
In-head x xs = ground (arith, eq_iff x x)

In-tail : (t x : String) (xs : List String) → In t xs → In t (x ∷ xs)
unfolding member
In-tail t x xs h = ground arith

module _ (visit : String → Option (List String)) where
  -- A name that may be entered, from the start along successors that may be entered.
  pub data Reaches (starts : List String) : String → Type 0 where
    start : {t : String} (ss : List String) → In t starts → visit t ≡ some ss → Reaches starts t
    step :
        {u t : String} (us ts : List String)
        → Reaches starts u
        → visit u ≡ some us
        → In t us
        → visit t ≡ some ts
        → Reaches starts t

  weight-cons-le :
      (universe reached : List String) (u : String)
      → weight visit universe (u ∷ reached) ≤ weight visit universe reached
  unfolding weight member
  weight-cons-le [] reached u = omega arith
  weight-cons-le (x ∷ xs) reached u = ground (arith, weight-cons-le xs reached u)

  weight_drops :
      (universe reached : List String) (u : String) (ss : List String)
      → In u universe
      → member u reached ≡ false
      → visit u ≡ some ss
      → weight visit universe (u ∷ reached) + length ss ≤ weight visit universe reached
  unfolding weight member
  weight_drops [] reached u ss i new e = cc
  weight_drops (x ∷ xs) reached u ss i new e = elim (Bool-cases (str_eq x u)) [
    | inl same ↦
        let x_is_u = (eq_iff x u).0 same in
        ground (arith, x_is_u, eq_iff u x, weight-cons-le xs reached u)
    | inr other ↦ ground (arith, eq_iff u x, weight_drops xs reached u ss (rw other at i) new e)
  ]

  -- A round of the loop, by what is done with the popped name.
  data Round (fuel : ℕ) (current : String) (reached pending : List String) : Type 0 where
    skips :
        ((ts : List String) → visit current ≡ some ts → In current reached)
        → explore visit (suc fuel) reached (current ∷ pending) ≡ explore visit fuel reached pending
        → Round fuel current reached pending
    enters :
        (ss : List String)
        → member current reached ≡ false
        → visit current ≡ some ss
        → explore visit (suc fuel) reached (current ∷ pending)
          ≡ explore visit fuel (current ∷ reached) (push_all ss pending)
        → Round fuel current reached pending

  round :
      (fuel : ℕ) (current : String) (reached pending : List String)
      → Round fuel current reached pending
  unfolding explore
  round fuel current reached pending = elim (Bool-cases (member current reached)) [
    | inl old ↦ skips (λ ts e. old) (rw (old, explore))
    | inr new ↦ elim (Option-cases (visit current)) [
      | inl blocked ↦ skips (λ ts e. cc) (rw (new, blocked, explore))
      | inr (ss, e) ↦ enters ss new e (rw (new, e, explore))
    ]
  ]

  module _ (universe : List String)
      (covers : (u : String) (ss : List String) → visit u ≡ some ss → In u universe) where
    explore_total :
        (fuel : ℕ) (reached pending : List String)
        → length pending + weight visit universe reached < fuel
        → (r : List String) × (explore visit fuel reached pending ≡ some r)
    explore_total zero reached pending h = absurd (omega arith)
    explore_total (suc fuel) reached [] h = (reached, unfold explore in refl)
    explore_total (suc fuel) reached (current ∷ pending) h =
        elim (round fuel current reached pending) [
          | skips why e ↦ rw e (explore_total fuel reached pending (omega arith))
          | enters ss new e e' ↦ rw e' (
              explore_total fuel (current ∷ reached) (push_all ss pending) (
                omega (
                  arith,
                  length-push_all ss pending,
                  weight_drops universe reached current ss (covers current ss e) new e,
                )))
        ]

    -- With the fuel given, the loop ends.
    pub explore-enough_fuel :
        (pending : List String)
        → (r : List String) × (explore visit (enough_fuel visit universe pending) [] pending
            ≡ some r)
    unfolding enough_fuel
    explore-enough_fuel pending = explore_total _ [] pending (omega arith)

  module _ (universe : List String)
      (closed : (u : String) (ss : List String)
        → visit u ≡ some ss
        → (t : String) → In t ss
        → In t universe) where
    pushed :
        (ss pending : List String)
        → ((t : String) → In t ss → In t universe)
        → ((t : String) → In t pending → In t universe)
        → (t : String) → In t (push_all ss pending)
        → In t universe
    pushed ss pending h k t i = elim (Bool-cases (member t ss)) [
      | inl new ↦ h t new
      | inr old ↦ k t (ground (arith, member-push_all t ss pending))
    ]

    known_tail :
        (current : String) (pending : List String)
        → ((t : String) → In t (current ∷ pending) → In t universe)
        → (t : String) → In t pending
        → In t universe
    known_tail current pending h t i = h t (In-tail t current pending i)

    explore_known :
        (fuel : ℕ) (reached pending : List String)
        → ((t : String) → In t pending → In t universe)
        → length pending + weight visit universe reached < fuel
        → (r : List String) × (explore visit fuel reached pending ≡ some r)
    explore_known zero reached pending k h = absurd (omega arith)
    explore_known (suc fuel) reached [] k h = (reached, unfold explore in refl)
    explore_known (suc fuel) reached (current ∷ pending) k h =
        elim (round fuel current reached pending) [
          | skips why e ↦
              rw e (explore_known fuel reached pending (known_tail current pending k) (omega arith))
          | enters ss new e e' ↦ rw e' (
              explore_known fuel (current ∷ reached) (push_all ss pending)
                (pushed ss pending (closed current ss e) (known_tail current pending k))
                (omega (
                  arith,
                  length-push_all ss pending,
                  weight_drops universe reached current ss (k current (In-head current pending)) new
                      e,
                )))
        ]

    -- With the fuel given for a universe that holds the start and all successors, the loop ends.
    pub explore-closed_fuel :
        (pending : List String)
        → ((t : String) → In t pending → In t universe)
        → (r : List String) × (explore visit (enough_fuel visit universe pending) [] pending
            ≡ some r)
    unfolding enough_fuel
    explore-closed_fuel pending k = explore_known _ [] pending k (omega arith)

  module _ (starts : List String) where
    -- A name in the stack is reached, if it may be entered.
    abbrev IsDue : String → Type 0
    IsDue t = (ts : List String) → visit t ≡ some ts → Reaches starts t

    entered_sound :
        (current : String) (reached : List String)
        → Reaches starts current
        → ((t : String) → In t reached → Reaches starts t)
        → (t : String) → In t (current ∷ reached)
        → Reaches starts t
    unfolding member
    entered_sound current reached now hr t i = elim (Bool-cases (str_eq current t)) [
      | inl same ↦ subst (Reaches starts) ((eq_iff current t).0 same) now
      | inr other ↦ hr t (rw other at i)
    ]

    pushed-IsDue :
        (current : String) (ss pending : List String)
        → Reaches starts current
        → visit current ≡ some ss
        → ((t : String) → In t pending → IsDue t)
        → (t : String) → In t (push_all ss pending)
        → IsDue t
    pushed-IsDue current ss pending now e hp t i ts e' = elim (Bool-cases (member t ss)) [
      | inl pushed ↦ step ss ts now e pushed e'
      | inr waiting ↦ hp t (rw (member-push_all, waiting) at i) ts e'
    ]

    explore_sound :
        (fuel : ℕ) (reached pending : List String) {r : List String}
        → ((t : String) → In t reached → Reaches starts t)
        → ((t : String) → In t pending → IsDue t)
        → explore visit fuel reached pending ≡ some r
        → (t : String) → In t r
        → Reaches starts t
    explore_sound zero reached pending hr hp e t i = absurd (unfold explore in cc)
    explore_sound (suc fuel) reached [] {r} hr hp e t i = hr t (unfold explore in cc)
    explore_sound (suc fuel) reached (current ∷ pending) {r} hr hp e t i =
        let rest : (s : String) → In s pending → IsDue s =
          λ s j. hp s (In-tail s current pending j) in
        elim (round fuel current reached pending) [
          | skips why e' ↦ explore_sound fuel reached pending hr rest (sym e' ∙ e) t i
          | enters ss new e' e'' ↦
              let now = hp current (In-head current pending) ss e' in
              explore_sound fuel (current ∷ reached) (push_all ss pending)
                (entered_sound current reached now hr) (pushed-IsDue current ss pending now e' rest)
                (sym e'' ∙ e) t i
        ]

    -- Every name that is due has been found or stands in the stack, or may not be entered.
    abbrev blocked : String → Bool
    blocked t = elim (visit t) [ none ↦ true | some ss ↦ false ]

    abbrev Settled : String → List String → List String → Type 0
    Settled t reached pending = (blocked t || (member t reached || member t pending)) ≡ true

    record IsClosed (reached pending : List String) : Type 0 where
      first : (t : String) → In t starts → Settled t reached pending
      onward :
          (u t : String) (us : List String)
          → In u reached
          → visit u ≡ some us
          → In t us
          → Settled t reached pending

    Settled-skip :
        (t current : String) (reached pending : List String)
        → ((ts : List String) → visit current ≡ some ts → In current reached)
        → Settled t reached (current ∷ pending)
        → Settled t reached pending
    unfolding member
    Settled-skip t current reached pending why h = elim (Option-cases (visit t)) [
      | inl e ↦ ground arith
      | inr (ts, e) ↦ ground (arith, eq_iff current t, why ts)
    ]

    Settled-enter :
        (t current : String) (ss reached pending : List String)
        → Settled t reached (current ∷ pending)
        → Settled t (current ∷ reached) (push_all ss pending)
    unfolding member
    Settled-enter t current ss reached pending h = ground (arith, member-push_all t ss pending)

    Settled-pushed :
        (t current : String) (ss reached pending : List String)
        → In t ss
        → Settled t (current ∷ reached) (push_all ss pending)
    Settled-pushed t current ss reached pending h = ground (arith, member-push_all t ss pending)

    IsClosed-enter :
        (current : String) (ss reached pending : List String)
        → visit current ≡ some ss
        → IsClosed reached (current ∷ pending)
        → IsClosed (current ∷ reached) (push_all ss pending)
    unfolding member
    IsClosed-enter current ss reached pending e c = record {
      first = λ t i. Settled-enter t current ss reached pending (c.first t i);
      onward = λ u t us i e' j. elim (Bool-cases (str_eq current u)) [
        | inl same ↦
            let is_u = (eq_iff current u).0 same in
            Settled-pushed t current ss reached pending (ground (arith, is_u))
        | inr other ↦
            Settled-enter t current ss reached pending (c.onward u t us (rw other at i) e' j)
      ];
    }

    closed_found :
        (reached : List String)
        → IsClosed reached []
        → (t : String) → Reaches starts t
        → In t reached
    unfolding member
    closed_found reached c t (start ss i e) = ground (arith, c.first t i)
    closed_found reached c t (step {u = u} us ts before e i e') =
        ground (arith, c.onward u t us (closed_found reached c u before) e i)

    explore_complete :
        (fuel : ℕ) (reached pending : List String) {r : List String}
        → IsClosed reached pending
        → explore visit fuel reached pending ≡ some r
        → (t : String) → Reaches starts t
        → In t r
    explore_complete zero reached pending c e t h = absurd (unfold explore in cc)
    explore_complete (suc fuel) reached [] c e t h =
        let found = closed_found reached c t h in unfold explore in cc
    explore_complete (suc fuel) reached (current ∷ pending) c e t h =
        elim (round fuel current reached pending) [
          | skips why e' ↦
              explore_complete fuel reached pending
                (record {
                  first = λ s i. Settled-skip s current reached pending why (c.first s i);
                  onward = λ u s us i e'' j.
                      Settled-skip s current reached pending why (c.onward u s us i e'' j);
                })
                (sym e' ∙ e) t h
          | enters ss new e' e'' ↦
              explore_complete fuel (current ∷ reached) (push_all ss pending)
                (IsClosed-enter current ss reached pending e' c) (sym e'' ∙ e) t h
        ]

    -- The names found are exactly those that the start reaches.
    pub explore-Reaches :
        (fuel : ℕ) {r : List String}
        → explore visit fuel [] starts ≡ some r
        → (t : String) → In t r ↔ Reaches starts t
    unfolding member
    explore-Reaches fuel e t = (
      explore_sound fuel [] starts (λ s i. cc) (λ s i ts e'. start ts i e') e t,
      explore_complete fuel [] starts
          (record { first = λ s i. ground arith; onward = λ u s us i. absurd (cc) }) e t,
    )
