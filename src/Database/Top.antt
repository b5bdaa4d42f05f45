-- ===== src/Database/Top.antt =====
-- `ORDER BY ... LIMIT 1` with a condition: the row that no other row beats.
use cert_vault.Prelude.{
  ◌≡◌, ◌≢◌, ◌⊎◌, ◌∙◌, refl, sym, ap, Bool, true, Option, none, some, List, [], ◌∷◌, if◌then◌else◌,
  IsIn, Bool-cases, inl, inr,
}

module _ {R : Type 0} where
  -- `better a b`: does `b` come before `a`?
  unfoldable pub prefer : (R → R → Bool) → R → Option R → Option R
  prefer better a none = some a
  prefer better a (some b) = if better a b then some b else some a

  unfoldable pub top : (R → R → Bool) → (R → Bool) → List R → Option R
  unfolding prefer
  top better p [] = none
  top better p (row ∷ rows) =
      let rest = top better p rows in if p row then prefer better row rest else rest

  -- the better of two rows is one of them
  pub prefer_either :
      (better : R → R → Bool) (a : R) (o : Option R)
      → (prefer better a o ≡ some a) ⊎ ((b : R) × (o ≡ some b) × (prefer better a o ≡ some b))
  unfolding prefer
  prefer_either better a none = inl refl
  prefer_either better a (some b) = elim (Bool-cases (better a b)) [
    | inl second ↦ rw second (inr (b, refl, refl))
    | inr front ↦ rw front (inl refl)
  ]

  pub top_member :
      (better : R → R → Bool) (p : R → Bool) (rows : List R) (r : R)
      → top better p rows ≡ some r
      → IsIn r rows × (p r ≡ true)
  unfolding top
  top_member better p [] r h = absurd (cc h)
  top_member better p (x ∷ rows) r h = elim (Bool-cases (p x)) [
    | inl fits ↦
        let h' : prefer better x (top better p rows) ≡ some r = rw fits at h in
        elim (prefer_either better x (top better p rows)) [
          | inl front ↦ let e : x ≡ r = cc (sym front ∙ h') in (inl e, ap p (sym e) ∙ fits)
          | inr (b, rest, second) ↦
              let e : b ≡ r = cc (sym second ∙ h') in
              let (j, k) = top_member better p rows r (rest ∙ ap some e) in (inr j, k)
        ]
    | inr other ↦ let (j, k) = top_member better p rows r (rw other at h) in (inr j, k)
  ]

  pub top_total :
      (better : R → R → Bool) (p : R → Bool) (rows : List R) (r : R)
      → IsIn r rows
      → p r ≡ true
      → top better p rows ≢ none
  unfolding top
  top_total better p [] r i h e = i
  top_total better p (x ∷ rows) r i h e = elim (Bool-cases (p x)) [
    | inl fits ↦
        let e' : prefer better x (top better p rows) ≡ none = rw fits at e in
        elim (prefer_either better x (top better p rows)) [
          | inl front ↦ cc (front, e')
          | inr (b, rest, second) ↦ cc (second, e')
        ]
    | inr other ↦ elim i [
      | inl here ↦ cc (ap p here ∙ h, other)
      | inr below ↦ top_total better p rows r below h (rw other at e)
    ]
  ]

  pub top_same :
      (better : R → R → Bool) (p q : R → Bool) (rows : List R)
      → ((r : R) → p r ≡ q r)
      → top better p rows ≡ top better q rows
  unfolding top
  top_same better p q [] h = refl
  top_same better p q (r ∷ rows) h = rw (h r, top_same better p q rows h) refl
