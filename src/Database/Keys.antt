-- ===== src/Database/Keys.antt =====
-- Rows that a key tells apart, as the primary keys of the tables do.
use cert_vault.Prelude.{
  ℕ, ◌≡◌, ◌≢◌, ◌∙◌, sym, ap, Bool, true, false, some, List, [], ◌∷◌, arith, eqb, eqb_iff, All, IsIn,
  Bool-cases, inl, inr,
}
use cert_vault.Database.Rows.{first, update}

module _ {R : Type 0} where
  -- no two rows have the same key
  abbrev pub AreUnique : (R → ℕ) → List R → Type 0
  AreUnique key [] = Unit
  AreUnique key (r ∷ rows) = All (λ s. key s ≢ key r) rows × AreUnique key rows

  pub All-IsIn : (P : R → Type 0) (rows : List R) (r : R) → All P rows → IsIn r rows → P r
  All-IsIn P [] r a i = absurd i
  All-IsIn P (x ∷ rows) r a (inl here) = rw (← here) a.0
  All-IsIn P (x ∷ rows) r a (inr below) = All-IsIn P rows r a.1 below

  pub AreUnique-same :
      (key : R → ℕ) (rows : List R) (a b : R)
      → AreUnique key rows
      → IsIn a rows
      → IsIn b rows
      → key a ≡ key b
      → a ≡ b
  AreUnique-same key [] a b u i j e = absurd i
  AreUnique-same key (r ∷ rows) a b u (inl h) (inl k) e = sym h ∙ k
  AreUnique-same key (r ∷ rows) a b u (inl h) (inr k) e =
      absurd (All-IsIn (λ s. key s ≢ key r) rows b u.0 k (sym e ∙ ap key (sym h)))
  AreUnique-same key (r ∷ rows) a b u (inr h) (inl k) e =
      absurd (All-IsIn (λ s. key s ≢ key r) rows a u.0 h (e ∙ ap key (sym k)))
  AreUnique-same key (r ∷ rows) a b u (inr h) (inr k) e = AreUnique-same key rows a b u.1 h k e

  pub first-IsIn : (p : R → Bool) (rows : List R) (r : R) → first p rows ≡ some r → IsIn r rows
  unfolding first
  first-IsIn p [] r h = absurd (cc h)
  first-IsIn p (x ∷ rows) r h = elim (Bool-cases (p x)) [
    | inl fits ↦ inl (ground (arith, fits))
    | inr other ↦ inr (first-IsIn p rows r (rw other at h))
  ]

  -- the search for a key finds its row
  pub first-AreUnique :
      (key : R → ℕ) (rows : List R) (r : R)
      → AreUnique key rows
      → IsIn r rows
      → first (λ s. eqb (key s) (key r)) rows ≡ some r
  unfolding first
  first-AreUnique key [] r u i = absurd i
  first-AreUnique key (x ∷ rows) r u (inl h) =
      let e : eqb (key x) (key r) ≡ true = (eqb_iff (key x) (key r)).1 (ap key h) in
      rw e (ap some h)
  first-AreUnique key (x ∷ rows) r u (inr h) =
      let ne = All-IsIn (λ s. key s ≢ key x) rows r u.0 h in
      let e : eqb (key x) (key r) ≡ false = ground (arith, ne) in
      rw e (first-AreUnique key rows r u.1 h)

  All-update_keys :
      (key : R → ℕ) (n : ℕ) (p : R → Bool) (f : R → R) (rows : List R)
      → ((r : R) → key (f r) ≡ key r)
      → All (λ s. key s ≢ n) rows
      → All (λ s. key s ≢ n) (update p f rows)
  unfolding update
  All-update_keys key n p f [] same a = tt
  All-update_keys key n p f (r ∷ rows) same a = elim (Bool-cases (p r)) [
    | inl fits ↦ rw fits ((λ e. a.0 (sym (same r) ∙ e)), All-update_keys key n p f rows same a.1)
    | inr other ↦ rw other (a.0, All-update_keys key n p f rows same a.1)
  ]

  pub AreUnique-update :
      (key : R → ℕ) (p : R → Bool) (f : R → R) (rows : List R)
      → ((r : R) → key (f r) ≡ key r)
      → AreUnique key rows
      → AreUnique key (update p f rows)
  unfolding update
  AreUnique-update key p f [] same u = tt
  AreUnique-update key p f (r ∷ rows) same u = elim (Bool-cases (p r)) [
    | inl fits ↦ rw fits (
      All-update_keys key (key (f r)) p f rows same (rw (same r) u.0),
      AreUnique-update key p f rows same u.1,
    )
    | inr other ↦
        rw other
          (All-update_keys key (key r) p f rows same u.0, AreUnique-update key p f rows same u.1)
  ]
