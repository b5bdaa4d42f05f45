-- ===== src/Database/Rows.antt =====
-- The SQL of the repositories on the rows of a table: `First` (the lowest id that fits, or no
-- record), `INSERT`, `UPDATE ... WHERE`, `DELETE ... WHERE`, `ORDER BY id DESC LIMIT/OFFSET`.
use mathlib.Core.Path.{subst}
use cert_vault.Prelude.{
  ℕ, zero, suc, ◌≤◌, ◌≡◌, refl, Bool, true, false, Option, none, some, List, [], ◌∷◌, ◌++◌, arith,
  if◌then◌else◌, count_if, Bool-cases, inl, inr, All,
}
use cert_vault.Prelude.Outcome.{Outcome, ok, err}
use cert_vault.Database.{Table, Error, not_found}

module _ {R : Type 0} where
  unfoldable pub first : (R → Bool) → List R → Option R
  first p [] = none
  first p (r ∷ rs) = if p r then some r else first p rs

  -- UPDATE ... SET ... WHERE
  unfoldable pub update : (R → Bool) → (R → R) → List R → List R
  update p f [] = []
  update p f (r ∷ rs) = (if p r then f r else r) ∷ update p f rs

  -- DELETE ... WHERE
  unfoldable pub delete : (R → Bool) → List R → List R
  delete p [] = []
  delete p (r ∷ rs) = let others = delete p rs in if p r then others else r ∷ others

  abbrev pub next_id : Table R → ℕ
  next_id t = suc t.seq

  -- INSERT of a row with the next id
  abbrev pub insert : R → Table R → Table R
  insert r t = record { rows = t.rows ++ r ∷ []; seq = next_id t }

  abbrev pub on_rows : (List R → List R) → Table R → Table R
  on_rows f t = record t { rows = f t.rows }

  unfoldable pub skip : ℕ → List R → List R
  skip zero rs = rs
  skip (suc n) [] = []
  skip (suc n) (r ∷ rs) = skip n rs

  unfoldable pub limit : ℕ → List R → List R
  limit zero rs = []
  limit (suc n) [] = []
  limit (suc n) (r ∷ rs) = r ∷ limit n rs

  unfoldable pub or_not_found : Option R → Outcome Error R
  or_not_found none = err not_found
  or_not_found (some r) = ok r

  pub ok_or_not_found : (o : Option R) {r : R} → or_not_found o ≡ ok r → o ≡ some r
  unfolding or_not_found
  ok_or_not_found none h = absurd (cc)
  ok_or_not_found (some x) h = cc

  pub first-fits : (p : R → Bool) (rs : List R) {r : R} → first p rs ≡ some r → p r ≡ true
  unfolding first
  first-fits p [] h = absurd (cc)
  first-fits p (x ∷ rs) h = elim (Bool-cases (p x)) [
    | inl fits ↦ ground arith
    | inr not_fits ↦ first-fits p rs (rw not_fits at h)
  ]

  pub count_if_of_first : (p : R → Bool) (rs : List R) → first p rs ≡ none → count_if p rs ≡ 0
  unfolding first count_if
  count_if_of_first p [] h = refl
  count_if_of_first p (x ∷ rs) h = ground (arith, count_if_of_first p rs)

  pub count_if-update_same :
      (p q : R → Bool) (f : R → R) (rs : List R)
      → ((r : R) → q (f r) ≡ q r)
      → count_if q (update p f rs) ≡ count_if q rs
  unfolding update count_if
  count_if-update_same p q f [] h = refl
  count_if-update_same p q f (x ∷ rs) h = ground (arith, count_if-update_same p q f rs h, h x)

  -- an update that makes no row fit leaves no more rows that fit
  pub count_if-update_le :
      (p q : R → Bool) (f : R → R) (rs : List R)
      → ((r : R) → q r ≡ false → p r ≡ true → q (f r) ≡ false)
      → count_if q (update p f rs) ≤ count_if q rs
  unfolding update count_if
  count_if-update_le p q f [] h = omega arith
  count_if-update_le p q f (x ∷ rs) h = ground (arith, count_if-update_le p q f rs h, h x)

  pub count_if_mono :
      (p q : R → Bool) (rs : List R)
      → ((r : R) → p r ≡ true → q r ≡ true)
      → count_if p rs ≤ count_if q rs
  unfolding count_if
  count_if_mono p q [] h = omega arith
  count_if_mono p q (x ∷ rs) h = ground (arith, count_if_mono p q rs h, h x)

  -- no row fits twice
  pub first-append_none :
      (p : R → Bool) (rs : List R) (r : R)
      → first p rs ≡ none
      → first p (rs ++ r ∷ []) ≡ (if p r then some r else none)
  unfolding first
  first-append_none p [] r h = refl
  first-append_none p (x ∷ rs) r h = ground (arith, first-append_none p rs r)

module _ {ℓ} {R : Type 0} where
  pub All-update :
      (P : R → Type ℓ) (p : R → Bool) (f : R → R) (rs : List R)
      → ((r : R) → P r → p r ≡ true → P (f r))
      → All P rs
      → All P (update p f rs)
  unfolding update
  All-update P p f [] h a = tt
  All-update P p f (x ∷ rs) h a = elim (Bool-cases (p x)) [
    | inl fits ↦ rw fits (h x a.0 fits, All-update P p f rs h a.1)
    | inr not_fits ↦ rw not_fits (a.0, All-update P p f rs h a.1)
  ]

  pub first-All :
      (P : R → Type ℓ) (p : R → Bool) (rs : List R) (r : R) → All P rs → first p rs ≡ some r → P r
  unfolding first
  first-All P p [] r a h = absurd (cc)
  first-All P p (x ∷ rs) r a h = elim (Bool-cases (p x)) [
    | inl fits ↦ let e : x ≡ r = ground arith in subst P e a.0
    | inr not_fits ↦ first-All P p rs r a.1 (rw not_fits at h)
  ]
