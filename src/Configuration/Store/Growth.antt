-- ===== src/Configuration/Store/Growth.antt =====
-- What an activation of configuration/activation_sqlite.py keeps, whichever controllers update it.
use mathlib.Core.Path.{subst}
use mathlib.Core.List.{append_assoc, append-nil}
use justflow.Common.{
  ℕ, ◌≡◌, refl, String, Bool, true, List, [], ◌∷◌, ◌++◌, arith, Option, none, some, inl, inr, ◌⊎◌,
  ap, sym, ◌∙◌, ◌||◌,
}
use justflow.Common.Dict.{Dict, lookup}
use justflow.Configuration.Records.{
  ActivationState, ActivationRecord, same_state, applied, superseded, rolled_back,
}
use justflow.Configuration.Activation.{allows}
use justflow.Configuration.Activation.Following.{Follows, Moves, Adds}
use justflow.Configuration.Store.{ActivationRow, row_of}
use justflow.Configuration.Store.Chain.{IsChain, IsIn, Reach, Reach-IsCurrent}

abbrev pub IsPrefix : {A : Type 0} → List A → List A → Type 0
IsPrefix xs ys = (zs : List _) × (ys ≡ xs ++ zs)

prefix_refl : {A : Type 0} (xs : List A) → IsPrefix xs xs
prefix_refl xs = ([], sym (append-nil xs))

prefix_trans : {A : Type 0} (xs ys zs : List A) → IsPrefix xs ys → IsPrefix ys zs → IsPrefix xs zs
prefix_trans xs ys zs (us, e) (vs, f) = (us ++ vs, f ∙ ap (λ l. l ++ vs) e ∙ append_assoc xs us vs)

-- The states that come after a final one: an applied activation is at most rolled back.
abbrev pub may_become : ActivationState → ActivationState → Bool
may_become superseded state = same_state state superseded
may_become rolled_back state = same_state state rolled_back
may_become applied state = same_state state applied || same_state state rolled_back
may_become _ state = true

become_refl : (a : ActivationState) → may_become a a ≡ true
become_refl a = ground arith

become-step : (a b : ActivationState) → allows a b ≡ true → may_become a b ≡ true
become-step a b h = ground arith

become_trans :
    (a b c : ActivationState)
    → may_become a b ≡ true
    → may_become b c ≡ true
    → may_become a c ≡ true
become_trans a b c h k = ground arith

pub record Outgrows (old new : ActivationRecord) : Type 0 where
  pub plan : new.plan ≡ old.plan
  pub checkpoints : IsPrefix old.checkpoints new.checkpoints
  pub transitions : IsPrefix old.transitions new.transitions
  pub state : may_become old.state new.state ≡ true
  pub readiness : (old.worker_readiness ≡ none) ⊎ (new.worker_readiness ≡ old.worker_readiness)

Outgrows-refl : (r : ActivationRecord) → Outgrows r r
Outgrows-refl r = record {
  plan = refl;
  checkpoints = prefix_refl r.checkpoints;
  transitions = prefix_refl r.transitions;
  state = become_refl r.state;
  readiness = inr refl;
}

Moves-prefix : (q r : ActivationRecord) → Moves q r → IsPrefix q.transitions r.transitions
Moves-prefix q r (inl (s, e)) = subst (IsPrefix q.transitions) (sym e) (prefix_refl q.transitions)
Moves-prefix q r (inr (t, e, f, g, allowed)) = (t ∷ [], e)

Moves-become : (q r : ActivationRecord) → Moves q r → may_become q.state r.state ≡ true
Moves-become q r (inl (s, e)) = ap (may_become q.state) s ∙ become_refl q.state
Moves-become q r (inr (t, e, f, g, allowed)) = become-step q.state r.state allowed

Adds-prefix : (q r : ActivationRecord) → Adds q r → IsPrefix q.checkpoints r.checkpoints
Adds-prefix q r (inl e) = subst (IsPrefix q.checkpoints) (sym e) (prefix_refl q.checkpoints)
Adds-prefix q r (inr (c, e)) = (c ∷ [], e)

readiness_trans :
    {A : Type 0} {a b c : Option A}
    → (a ≡ none) ⊎ (b ≡ a)
    → (b ≡ none) ⊎ (c ≡ b)
    → (a ≡ none) ⊎ (c ≡ a)
readiness_trans (inl e) k = inl e
readiness_trans (inr e) (inl n) = inl (sym e ∙ n)
readiness_trans (inr e) (inr n) = inr (n ∙ e)

-- one more operation on what has outgrown a record
Outgrows-step : (o q r : ActivationRecord) → Outgrows o q → Follows q r → Outgrows o r
Outgrows-step o q r g f = record {
  plan = f.plan ∙ g.plan;
  checkpoints =
      prefix_trans o.checkpoints q.checkpoints r.checkpoints g.checkpoints (Adds-prefix q r f.adds);
  transitions =
      prefix_trans o.transitions q.transitions r.transitions g.transitions
        (Moves-prefix q r f.moves);
  state = become_trans o.state q.state r.state g.state (Moves-become q r f.moves);
  readiness = readiness_trans g.readiness f.readiness;
}

chain-Outgrows :
    (q : ActivationRecord) (rest : List ActivationRecord)
    → IsChain (q ∷ rest)
    → (old : ActivationRecord) → IsIn old (q ∷ rest)
    → Outgrows old q
chain-Outgrows q rest h old (inl e) = subst (Outgrows old) e (Outgrows-refl old)
chain-Outgrows q [] h old (inr m) = absurd m
chain-Outgrows q (p ∷ rest) h old (inr m) =
    let (f, n, tail) = h in Outgrows-step old p q (chain-Outgrows p rest tail old m) f

-- Whichever controllers have created and updated an activation, the record that its row holds has the plan
-- of every record that the row has had, all its checkpoints and transitions in their order, and its worker
-- readiness if there was one; an activation that was superseded or rolled back stays so, and one that was
-- applied is applied or rolled back.
pub Reach-Outgrows :
    (scope_digest : String) (size : ActivationRecord → ℕ) (activation_id : String)
    {rows : Dict ActivationRow} {history : List ActivationRecord}
    → Reach scope_digest size activation_id rows history
    → (old : ActivationRecord) → IsIn old history
    → (r : ActivationRecord) × (lookup activation_id rows ≡ some (row_of r)) × Outgrows old r
Reach-Outgrows scope_digest size activation_id h old m =
    let i = Reach-IsCurrent scope_digest size activation_id h in
    (
      i.newest,
      i.stored,
      chain-Outgrows i.newest i.older (subst IsChain i.split i.chain) old
          (subst (IsIn old) i.split m),
    )
