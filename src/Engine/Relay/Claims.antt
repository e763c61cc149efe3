-- ===== src/Engine/Relay/Claims.antt =====
-- Claims of deliveries that are in work (engine/response_relay.py).
use justflow.Common.{ℕ, ◌<◌, String, ◌≡◌, ◌≢◌, sym, some, List, [], ◌∷◌, ◌++◌, All}
use justflow.Common.Dict.{lookup}
use justflow.Engine.Deduplication.{DeduplicationStore, DeliveryClaim}

-- Claims that differ in what f tells of them.
abbrev pub IsApart : {K : Type 0} → (DeliveryClaim → K) → K → List DeliveryClaim → Type 0
IsApart f k cs = All (λ c. f c ≢ k) cs

abbrev pub IsSpread : {K : Type 0} → (DeliveryClaim → K) → List DeliveryClaim → Type 0
IsSpread f [] = Unit
IsSpread f (c ∷ cs) = IsApart f (f c) cs × IsSpread f cs

abbrev pub identifier : DeliveryClaim → String
identifier c = c.message_id

abbrev pub object : DeliveryClaim → ℕ
object c = c.identity

abbrev pub IsHeld : DeduplicationStore → DeliveryClaim → Type 0
IsHeld s c = lookup c.message_id s.pending ≡ some c

-- The store holds each claim in work, and no two are of one delivery.
pub record IsExclusive (s : DeduplicationStore) (cs : List DeliveryClaim) : Type 0 where
  pub held : All (IsHeld s) cs
  pub spread : IsSpread identifier cs

abbrev pub IsKnown : DeduplicationStore → DeliveryClaim → Type 0
IsKnown s c = c.identity < s.next_identity

pub All-map {ℓ κ κ'} :
    {A : Type ℓ} (P : A → Type κ) (Q : A → Type κ') (xs : List A)
    → ((x : A) → P x → Q x)
    → All P xs
    → All Q xs
All-map P Q [] f h = tt
All-map P Q (x ∷ xs) f h = (f x h.0, All-map P Q xs f h.1)

pub All-middle {ℓ κ} :
    {A : Type ℓ} (P : A → Type κ) (xs : List A) (x : A) (ys : List A)
    → All P (xs ++ x ∷ ys)
    → P x × All P (xs ++ ys)
All-middle P [] x ys h = h
All-middle P (x' ∷ xs) x ys h = let (p, q) = All-middle P xs x ys h.1 in (p, (h.0, q))

pub IsSpread-middle :
    {K : Type 0} (f : DeliveryClaim → K) (xs : List DeliveryClaim) (c : DeliveryClaim)
    (ys : List DeliveryClaim)
    → IsSpread f (xs ++ c ∷ ys)
    → IsApart f (f c) (xs ++ ys) × IsSpread f (xs ++ ys)
IsSpread-middle f [] c ys h = h
IsSpread-middle f (d ∷ xs) c ys h =
    let (apart, spread) = IsSpread-middle f xs c ys h.1 in
    let (other, rest) = All-middle _ xs c ys h.0 in (((λ e. other (sym e)), apart), (rest, spread))
