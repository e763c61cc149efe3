-- ===== src/Engine/Limits.antt =====
-- src/justflow/engine/limits.py: the guards for bounded workflow runtime data.
use justflow.Common.{ℕ, ◌≡◌, ◌≤◌, inl, inr, leb, leb→le, Bool-cases, arith, if◌then◌else◌}
use justflow.Engine.Exceptions.{LimitKind, limit_exceeded, Result, ok, err, ◌>>◌, Ensures}

unfoldable pub enforce_limit : (actual limit : ℕ) → LimitKind → Result (Unit {0})
enforce_limit actual limit kind =
    if leb actual limit then ok tt else err (limit_exceeded kind actual limit)

pub enforce_limit-le :
    (actual limit : ℕ) (kind : LimitKind) → enforce_limit actual limit kind ≡ ok tt → actual ≤ limit
unfolding enforce_limit
enforce_limit-le actual limit kind h = ground arith

pub enforce_limit-of_le :
    (actual limit : ℕ) (kind : LimitKind) → actual ≤ limit → enforce_limit actual limit kind ≡ ok tt
unfolding enforce_limit
enforce_limit-of_le actual limit kind h = ground arith

-- What follows a guard may use that it passed.
pub Ensures-enforce_limit {ℓ κ} :
    {A : Type ℓ} (P : A → Type κ) (actual limit : ℕ) (kind : LimitKind) (r : Result A)
    → (actual ≤ limit → Ensures P r)
    → Ensures P (enforce_limit actual limit kind >> r)
unfolding enforce_limit
Ensures-enforce_limit P actual limit kind r h = elim (Bool-cases (leb actual limit)) [
  | inl fits ↦ rw fits (h (leb→le actual limit fits))
  | inr over ↦ rw over tt
]
