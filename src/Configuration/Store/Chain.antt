-- ===== src/Configuration/Store/Chain.antt =====
-- Controllers that change an activation of configuration/activation_sqlite.py at the same time, each from a
-- record that it has read at some time before.
use mathlib.Core.Path.{subst}
use text.Mathlib.TextEquality.{eq_iff}
use justflow.Common.{
  ℕ, suc, ◌<◌, ◌≡◌, ◌≢◌, refl, String, true, List, [], ◌∷◌, arith, Option, none, some, inl, inr,
  ◌⊎◌, ap, sym, ◌∙◌,
}
use justflow.Common.Dict.{Dict, lookup, insert, lookup-insert}
use justflow.Configuration.Results.{ok}
use justflow.Configuration.Records.{ActivationRecord}
use justflow.Configuration.Activation.{Change, apply}
use justflow.Configuration.Activation.Following.{Follows, apply-Follows}
use justflow.Configuration.Store.{
  ActivationRow, row_of, create_activation, update_activation, is_current, inserted_once,
}

-- Each record of a history, the newest first, is the next version of the one before it.
abbrev pub IsChain : List ActivationRecord → Type 0
IsChain [] = Unit
IsChain (r ∷ []) = Unit
IsChain (r ∷ q ∷ rest) = Follows q r × (r.version ≡ suc q.version) × IsChain (q ∷ rest)

abbrev pub IsIn : ActivationRecord → List ActivationRecord → Type 0
IsIn r [] = ⊥
IsIn r (q ∷ rest) = (r ≡ q) ⊎ IsIn r rest

some≢none : {A : Type 0} {a : A} → some a ≢ none
some≢none e = cc

chain-below :
    (q : ActivationRecord) (rest : List ActivationRecord)
    → IsChain (q ∷ rest)
    → (r : ActivationRecord) → IsIn r rest
    → r.version < q.version
chain-below q [] h r m = absurd m
chain-below q (p ∷ rest) h r (inl e) =
    let (f, n, tail) = h in omega (arith, n, ap ActivationRecord.version e)
chain-below q (p ∷ rest) h r (inr m) =
    let (f, n, tail) = h in omega (arith, n, chain-below p rest tail r m)

-- a record of the newest version is the newest record
pub chain-newest :
    (q : ActivationRecord) (rest : List ActivationRecord)
    → IsChain (q ∷ rest)
    → (r : ActivationRecord) → IsIn r (q ∷ rest)
    → r.version ≡ q.version
    → r ≡ q
chain-newest q rest h r (inl e) n = e
chain-newest q rest h r (inr m) n = let below = chain-below q rest h r m in absurd (omega arith)

pub chain-identity :
    (activation_id : String) (q : ActivationRecord) (rest : List ActivationRecord)
    → IsChain (q ∷ rest)
    → q.activation_id ≡ activation_id
    → (r : ActivationRecord) → IsIn r (q ∷ rest)
    → r.activation_id ≡ activation_id
chain-identity id q rest h own r (inl e) = ap ActivationRecord.activation_id e ∙ own
chain-identity id q [] h own r (inr m) = absurd m
chain-identity id q (p ∷ rest) h own r (inr m) =
    let (f, n, tail) = h in chain-identity id p rest tail (sym f.identity ∙ own) r m

current-version :
    (row : ActivationRow) (n : ℕ) {o : Option ActivationRow}
    → o ≡ some row
    → is_current o n ≡ true
    → n ≡ row.version
current-version row n e h = ground arith

module _ (scope_digest : String) (size : ActivationRecord → ℕ) (activation_id : String) where
  abbrev Rows : Type 0
  Rows = Dict ActivationRow

  -- The rows after creations and updates of any controllers, and the records that the activation's row has
  -- had, the newest first. An update comes from any record of the history.
  pub data Reach : Rows → List ActivationRecord → Type 0 where
    created :
        (r : ActivationRecord) (rows : Rows) {rows' : Rows} {kept : ActivationRecord}
        → r.activation_id ≡ activation_id
        → lookup activation_id rows ≡ none
        → create_activation scope_digest size r rows ≡ ok (rows', kept)
        → Reach rows' (r ∷ [])
    recreated :
        (r : ActivationRecord) {rows rows' : Rows} {kept : ActivationRecord}
        {history : List ActivationRecord}
        → Reach rows history
        → create_activation scope_digest size r rows ≡ ok (rows', kept)
        → Reach rows' history
    updated :
        (c : Change) (read changed : ActivationRecord) {rows rows' : Rows} {kept : ActivationRecord}
        {history : List ActivationRecord}
        → Reach rows history
        → IsIn read history
        → apply c read ≡ ok changed
        → update_activation scope_digest size changed read.version rows ≡ ok (rows', kept)
        → Reach rows' (changed ∷ history)
    others :
        (r : ActivationRecord) (version : ℕ) {rows rows' : Rows} {kept : ActivationRecord}
        {history : List ActivationRecord}
        → Reach rows history
        → r.activation_id ≢ activation_id
        → update_activation scope_digest size r version rows ≡ ok (rows', kept)
        → Reach rows' history

  pub record IsCurrent (rows : Rows) (history : List ActivationRecord) : Type 0 where
    pub newest : ActivationRecord
    pub older : List ActivationRecord
    pub split : history ≡ newest ∷ older
    pub stored : lookup activation_id rows ≡ some (row_of newest)
    pub named : newest.activation_id ≡ activation_id
    pub chain : IsChain history

  update-ok :
      (r : ActivationRecord) (n : ℕ) (rows : Rows) {rows' : Rows} {kept : ActivationRecord}
      → update_activation scope_digest size r n rows ≡ ok (rows', kept)
      → (r.version ≡ suc n)
        × (is_current (lookup r.activation_id rows) n ≡ true)
        × (rows' ≡ insert r.activation_id (row_of r) rows)
  unfolding update_activation
  update-ok r n rows e = ground arith

  inserted-ok :
      (existing : Option ActivationRow) (r : ActivationRecord) (rows : Rows) {rows' : Rows}
      {kept : ActivationRecord}
      → inserted_once scope_digest size existing r rows ≡ ok (rows', kept)
      → ((existing ≢ none) × (rows' ≡ rows))
        ⊎ ((existing ≡ none) × (rows' ≡ insert r.activation_id (row_of r) rows))
  unfolding inserted_once
  inserted-ok none r rows e = inr (refl, cc)
  inserted-ok (some row) r rows e = inl (some≢none, ground arith)

  create-ok :
      (r : ActivationRecord) (rows : Rows) {rows' : Rows} {kept : ActivationRecord}
      → create_activation scope_digest size r rows ≡ ok (rows', kept)
      → ((lookup r.activation_id rows ≢ none) × (rows' ≡ rows))
        ⊎ ((lookup r.activation_id rows ≡ none) × (rows' ≡ insert r.activation_id (row_of r) rows))
  unfolding create_activation
  create-ok r rows {kept = kept} e =
      inserted-ok (lookup r.activation_id rows) r rows {kept = kept} (ground arith)

  other-row :
      (r : ActivationRecord) (rows : Rows)
      → r.activation_id ≢ activation_id
      → lookup activation_id (insert r.activation_id (row_of r) rows) ≡ lookup activation_id rows
  other-row r rows d = ground (
    arith,
    lookup-insert r.activation_id activation_id (row_of r) rows,
    eq_iff r.activation_id activation_id,
  )

  own-row :
      (r : ActivationRecord) (rows : Rows)
      → r.activation_id ≡ activation_id
      → lookup activation_id (insert r.activation_id (row_of r) rows) ≡ some (row_of r)
  own-row r rows d = ground (
    arith,
    lookup-insert r.activation_id activation_id (row_of r) rows,
    eq_iff r.activation_id activation_id,
  )

  kept-IsCurrent :
      (r : ActivationRecord) (rows : Rows) {history : List ActivationRecord}
      → r.activation_id ≢ activation_id
      → IsCurrent rows history
      → IsCurrent (insert r.activation_id (row_of r) rows) history
  kept-IsCurrent r rows d i = record {
    newest = i.newest;
    older = i.older;
    split = i.split;
    stored = other-row r rows d ∙ i.stored;
    named = i.named;
    chain = i.chain;
  }

  updated-IsCurrent :
      (read changed : ActivationRecord) (rows : Rows) {history : List ActivationRecord}
      → IsCurrent rows history
      → IsIn read history
      → Follows read changed
      → changed.version ≡ suc read.version
      → is_current (lookup changed.activation_id rows) read.version ≡ true
      → IsCurrent (insert changed.activation_id (row_of changed) rows) (changed ∷ history)
  updated-IsCurrent read changed rows {history} i m f n current =
      let m' : IsIn read (i.newest ∷ i.older) = subst (IsIn read) i.split m in
      let chain : IsChain (i.newest ∷ i.older) = subst IsChain i.split i.chain in
      let is_own : read.activation_id ≡ activation_id =
        chain-identity activation_id i.newest i.older chain i.named read m' in
      let own : changed.activation_id ≡ activation_id = f.identity ∙ is_own in
      let stored : lookup changed.activation_id rows ≡ some (row_of i.newest) =
        ap (λ k. lookup k rows) own ∙ i.stored in
      let newest : read ≡ i.newest =
        chain-newest i.newest i.older chain read m'
          (current-version (row_of i.newest) read.version stored current) in
      record {
        newest = changed;
        older = history;
        split = refl;
        stored = own-row changed rows own;
        named = own;
        chain =
            subst (λ h. IsChain (changed ∷ h)) (sym i.split)
              (
                subst (λ q. Follows q changed) newest f,
                subst (λ q. changed.version ≡ suc q.version) newest n,
                chain,
              );
      }

  -- The rows and the history of an activation that any controllers have created and updated: the row is the
  -- newest record, and each record of the history comes by one operation from the one before it and is its
  -- next version, so no update is lost.
  pub Reach-IsCurrent :
      {rows : Rows} {history : List ActivationRecord} → Reach rows history → IsCurrent rows history
  Reach-IsCurrent (created r rows own fresh e) = elim (create-ok r rows e) [
    | inl (there, same) ↦ absurd (there (ap (λ k. lookup k rows) own ∙ fresh))
    | inr (absent, new) ↦ record {
      newest = r;
      older = [];
      split = refl;
      stored = subst (λ d. lookup activation_id d ≡ some (row_of r)) (sym new) (own-row r rows own);
      named = own;
      chain = tt;
    }
  ]
  Reach-IsCurrent (recreated r {rows = rows} {history = past} h e) = elim (create-ok r rows e) [
    | inl (there, same) ↦ subst (λ d. IsCurrent d past) (sym same) (Reach-IsCurrent h)
    | inr (absent, new) ↦
        let i = Reach-IsCurrent h in
        let differs : r.activation_id ≢ activation_id =
          λ own. some≢none (sym i.stored ∙ sym (ap (λ k. lookup k rows) own) ∙ absent) in
        subst (λ d. IsCurrent d past) (sym new) (kept-IsCurrent r rows differs i)
  ]
  Reach-IsCurrent (updated c read changed {rows = rows} {history = past} h m a e) =
      let (version, current, new) = update-ok changed read.version rows e in
      subst (λ d. IsCurrent d (changed ∷ past)) (sym new)
        (updated-IsCurrent read changed rows (Reach-IsCurrent h) m (apply-Follows c read changed a)
          version current)
  Reach-IsCurrent (others r version {rows = rows} {history = past} h d e) =
      let (_, _, new) = update-ok r version rows e in
      subst (λ d. IsCurrent d past) (sym new) (kept-IsCurrent r rows d (Reach-IsCurrent h))
