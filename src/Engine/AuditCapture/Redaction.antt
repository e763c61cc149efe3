-- ===== src/Engine/AuditCapture/Redaction.antt =====
-- What a redaction of engine/audit_capture.py hides, and what it leaves.
use text.Mathlib.Text.{◌==◌ as str_eq}
use text.Mathlib.TextEquality.{eq_iff}
use justflow.Common.{
  ℕ, zero, suc, String, ◌≡◌, refl, sym, ap, true, false, Option, none, some, List, [], ◌∷◌, ltb,
  arith, inl, inr, Bool-cases,
}
use justflow.Common.Int.{ℤ, pos, negsuc}
use justflow.Engine.Data.Objects.{
  Object, list, dict, Items, nil, cons, Entries, end, entry, key, opaque, has_entry, items_length,
}
use justflow.Engine.AuditCapture.{
  map_entries, map_items, map_key, map_at, at_index, descend, redact_at,
}
use justflow.Engine.AuditCapture.Agreement.{
  EachEntry, each_end, each_entry, EachItem, each_nil, each_cons, AtKey, at_end, at_token, at_other,
  AtItem, at_this, at_later, Below, same, every_value, every_item, at_key, at_item, Agree,
}

-- A change that makes such pairs equal.
module _ (R : Object → Object → Type 0) (f : Object → Object)
    (hides : (v w : Object) → R v w → f v ≡ f w) where
  map_entries-EachEntry :
      (es fs : Entries) → EachEntry R es fs → map_entries f es ≡ map_entries f fs
  unfolding map_entries
  map_entries-EachEntry _ _ each_end = refl
  map_entries-EachEntry _ _ (each_entry k r rest) =
      rw (hides _ _ r, map_entries-EachEntry _ _ rest) refl

  map_items-EachItem : (xs ys : Items) → EachItem R xs ys → map_items f xs ≡ map_items f ys
  unfolding map_items
  map_items-EachItem _ _ each_nil = refl
  map_items-EachItem _ _ (each_cons r rest) = rw (hides _ _ r, map_items-EachItem _ _ rest) refl

  map_key-AtKey :
      (token : String) (es fs : Entries)
      → AtKey R token es fs
      → map_key token f es ≡ map_key token f fs
  unfolding map_key
  map_key-AtKey token _ _ at_end = refl
  map_key-AtKey token _ _ (at_token j e r rest) =
      rw ((eq_iff j token).1 e, hides _ _ r, map_key-AtKey token _ _ rest) refl
  map_key-AtKey token _ _ (at_other k v rest) = rw (map_key-AtKey token _ _ rest) refl

  map_at-AtItem : (i : ℕ) (xs ys : Items) → AtItem R i xs ys → map_at i f xs ≡ map_at i f ys
  unfolding map_at
  map_at-AtItem _ _ _ (at_this xs r) = ap (λ v. cons v xs) (hides _ _ r)
  map_at-AtItem _ _ _ (at_later i v rest) = ap (cons v) (map_at-AtItem i _ _ rest)

module _ (R : Object → Object → Type 0) where
  has_entry-AtKey :
      (token k : String) (es fs : Entries) → AtKey R token es fs → has_entry k es ≡ has_entry k fs
  unfolding has_entry
  has_entry-AtKey token k _ _ at_end = refl
  has_entry-AtKey token k _ _ (at_token j e r rest) = rw (has_entry-AtKey token k _ _ rest) refl
  has_entry-AtKey token k _ _ (at_other (key j) v rest) = rw (has_entry-AtKey token k _ _ rest) refl
  has_entry-AtKey token k _ _ (at_other (opaque j) v rest) = has_entry-AtKey token k _ _ rest

  AtKey-missing :
      (token : String) (es fs : Entries)
      → AtKey R token es fs
      → has_entry token es ≡ false
      → es ≡ fs
  unfolding has_entry
  AtKey-missing token _ _ at_end e = refl
  AtKey-missing token _ _ (at_token j e r rest) e' = absurd (ground (arith, eq_iff j token))
  AtKey-missing token _ _ (at_other (key j) v {es = es} rest) e =
      let missing : has_entry token es ≡ false = ground arith in
      ap (entry (key j) v) (AtKey-missing token _ _ rest missing)
  AtKey-missing token _ _ (at_other (opaque j) v rest) e =
      ap (entry (opaque j) v) (AtKey-missing token _ _ rest e)

  AtItem-inside :
      (i : ℕ) (xs ys : Items)
      → AtItem R i xs ys
      → (ltb i (items_length xs) ≡ true) × (ltb i (items_length ys) ≡ true)
  unfolding items_length
  AtItem-inside _ _ _ (at_this xs r) = (ground arith, ground arith)
  AtItem-inside _ _ _ (at_later i v rest) =
      let (p, q) = AtItem-inside i _ _ rest in (ground arith, ground arith)

  AtKey-map_key :
      (token : String) (f : Object → Object) (es : Entries)
      → ((v : Object) → R v (f v))
      → AtKey R token es (map_key token f es)
  unfolding map_key
  AtKey-map_key token f end h = at_end
  AtKey-map_key token f (entry (opaque j) v es) h =
      at_other (opaque j) v (AtKey-map_key token f es h)
  AtKey-map_key token f (entry (key j) v es) h = elim (Bool-cases (str_eq j token)) [
    | inl found ↦
        rw (found) (at_token j ((eq_iff j token).0 found) (h v) (AtKey-map_key token f es h))
    | inr other ↦ rw (other) (at_other (key j) v (AtKey-map_key token f es h))
  ]

  EachEntry-map_entries :
      (f : Object → Object) (es : Entries)
      → ((v : Object) → R v (f v))
      → EachEntry R es (map_entries f es)
  unfolding map_entries
  EachEntry-map_entries f end h = each_end
  EachEntry-map_entries f (entry k v es) h = each_entry k (h v) (EachEntry-map_entries f es h)

  EachItem-map_items :
      (f : Object → Object) (xs : Items)
      → ((v : Object) → R v (f v))
      → EachItem R xs (map_items f xs)
  unfolding map_items
  EachItem-map_items f nil h = each_nil
  EachItem-map_items f (cons v xs) h = each_cons (h v) (EachItem-map_items f xs h)

  AtItem-map_at :
      (i : ℕ) (f : Object → Object) (xs : Items)
      → ((v : Object) → R v (f v))
      → ltb i (items_length xs) ≡ true
      → AtItem R i xs (map_at i f xs)
  unfolding map_at items_length
  AtItem-map_at i f nil h e = absurd (ground arith)
  AtItem-map_at zero f (cons v xs) h e = at_this xs (h v)
  AtItem-map_at (suc i) f (cons v xs) h e = at_later i v (AtItem-map_at i f xs h (ground arith))

module _ (int_of : String → Option ℤ) (R : Object → Object → Type 0) (f : Object → Object) where
  descend-Below :
      (token : String)
      → ((v w : Object) → R v w → f v ≡ f w)
      → (v w : Object) → Below int_of token R v w
      → descend int_of token f v ≡ descend int_of token f w
  unfolding descend
  descend-Below token hides _ _ (same v) = refl
  descend-Below token hides _ _ (every_value e each) =
      rw ((eq_iff token "*").1 e) (ap dict (map_entries-EachEntry R f hides _ _ each))
  descend-Below token hides _ _ (every_item e each) =
      rw ((eq_iff token "*").1 e) (ap list (map_items-EachItem R f hides _ _ each))
  descend-Below token hides _ _ (at_key {es} {fs} e a) = elim (Bool-cases (has_entry token es)) [
    | inl found ↦
        let found' : has_entry token fs ≡ true =
          rw (sym (has_entry-AtKey R token token es fs a)) found in
        rw (e, found, found') (ap dict (map_key-AtKey R f hides token _ _ a))
    | inr missing ↦
        let missing' : has_entry token fs ≡ false =
          rw (sym (has_entry-AtKey R token token es fs a)) missing in
        rw (e, missing, missing') (ap dict (AtKey-missing R token _ _ a missing))
  ]
  descend-Below token hides _ _ (at_item i e e' a) =
      rw (e, e', (AtItem-inside R i _ _ a).0, (AtItem-inside R i _ _ a).1)
        (ap list (map_at-AtItem R f hides i _ _ a))

  Below-descend :
      (token : String)
      → ((v : Object) → R v (f v))
      → (v : Object) → Below int_of token R v (descend int_of token f v)
  unfolding descend
  Below-descend token h (dict es) = elim (Bool-cases (str_eq token "*")) [
    | inl all ↦ rw (all) (every_value ((eq_iff token "*").0 all) (EachEntry-map_entries R f es h))
    | inr one ↦ elim (Bool-cases (has_entry token es)) [
      | inl found ↦ rw (one, found) (at_key one (AtKey-map_key R token f es h))
      | inr missing ↦ rw (one, missing) (same (dict es))
    ]
  ]
  Below-descend token h (list xs) = elim (Bool-cases (str_eq token "*")) [
    | inl all ↦ rw (all) (every_item ((eq_iff token "*").0 all) (EachItem-map_items R f xs h))
    | inr one ↦ rw (one) (Below-at_index (int_of token) one refl)
  ]
    where
      Below-at_index :
          (i : Option ℤ)
          → str_eq token "*" ≡ false
          → int_of token ≡ i
          → Below int_of token R (list xs) (list (at_index int_of i f xs))
      Below-at_index none one e = same (list xs)
      Below-at_index (some (negsuc n)) one e = same (list xs)
      Below-at_index (some (pos i)) one e = elim (Bool-cases (ltb i (items_length xs))) [
        | inl inside ↦ rw (inside) (at_item i one e (AtItem-map_at R i f xs h inside))
        | inr outside ↦ rw (outside) (same (list xs))
      ]
  Below-descend token h v = same v

module _ (int_of : String → Option ℤ) where
  hidden :
      (tokens : List String) (v w : Object)
      → Agree int_of tokens v w
      → redact_at int_of tokens v ≡ redact_at int_of tokens w
  unfolding redact_at Agree
  hidden [] v w h = refl
  hidden (token ∷ remaining) v w h =
      descend-Below int_of (Agree int_of remaining) (redact_at int_of remaining) token
        (hidden remaining) v w h

  kept : (tokens : List String) (v : Object) → Agree int_of tokens v (redact_at int_of tokens v)
  unfolding redact_at Agree
  kept [] v = tt
  kept (token ∷ remaining) v =
      Below-descend int_of (Agree int_of remaining) (redact_at int_of remaining) token
        (kept remaining) v

  -- Documents that agree but for the places that a pointer names are redacted to the same document, and
  -- a redacted document agrees with the original but for these places.
  pub redact_at-Agree :
      (tokens : List String) (v : Object)
      → ((w : Object)
          → Agree int_of tokens v w
          → redact_at int_of tokens v ≡ redact_at int_of tokens w)
        × Agree int_of tokens v (redact_at int_of tokens v)
  redact_at-Agree tokens v = (hidden tokens v, kept tokens v)
