-- ===== src/Certificates/Bulk.antt =====
-- One statement for many certificates reads what one statement for each would
-- (backend/database/repository/certificate_repository.go, `currentVersions` and `latestJobs`).
use mathlib.Core.Option
use cert_vault.Prelude.{
  ℕ, ◌≡◌, ◌≢◌, ◌⊎◌, ◌∙◌, refl, sym, ap, Bool, true, Option, none, some, List, [], ◌∷◌, arith, any,
  eqb, eqb_iff, eqb_refl, if◌then◌else◌, select, IsIn, Bool-cases, Option-cases, inl, inr,
}
use cert_vault.Database.{CertificateRow}
use cert_vault.Database.Keys.{AreUnique, AreUnique-same}
use cert_vault.Certificates.Listing.{index, no_entry, id_and, best_ids, select_best}

module _ {R V : Type 0} (key : R → ℕ) (value : R → V) where
  pub index-some :
      (rows : List R) (m : ℕ → Option V) (k : ℕ) (v : V)
      → ((r : R) → IsIn r rows → key r ≡ k → value r ≡ v)
      → ((r : R) × IsIn r rows × (key r ≡ k)) ⊎ (m k ≡ some v)
      → index key value rows m k ≡ some v
  unfolding index
  index-some [] m k v same (inl (r, i, e)) = absurd i
  index-some [] m k v same (inr h) = h
  index-some (x ∷ rows) m k v same there =
      index-some rows (λ j. if eqb j (key x) then some (value x) else m j) k v
        (λ r i. same r (inr i))
        (elim there [
          | inl found ↦ elim found.1 [
            | inl here ↦ inr (latest_entry (ap key here ∙ found.2))
            | inr below ↦ inl (found.0, below, found.2)
          ]
          | inr before ↦ inr (kept before)
        ])
    where
      latest_entry : key x ≡ k → (if eqb k (key x) then some (value x) else m k) ≡ some v
      latest_entry e =
          let b : eqb k (key x) ≡ true = (eqb_iff k (key x)).1 (sym e) in
          rw b (ap some (same x (inl refl) e))

      kept : m k ≡ some v → (if eqb k (key x) then some (value x) else m k) ≡ some v
      kept before = elim (Bool-cases (eqb k (key x))) [
        | inl b ↦ rw b (ap some (same x (inl refl) (sym ((eqb_iff k (key x)).0 b))))
        | inr b ↦ rw b before
      ]

  pub index-none :
      (rows : List R) (m : ℕ → Option V) (k : ℕ)
      → ((r : R) → IsIn r rows → key r ≢ k)
      → index key value rows m k ≡ m k
  unfolding index
  index-none [] m k absent = refl
  index-none (x ∷ rows) m k absent =
      index-none rows (λ j. if eqb j (key x) then some (value x) else m j) k
        (λ r i. absent r (inr i))
      ∙ untouched
    where
      untouched : (if eqb k (key x) then some (value x) else m k) ≡ m k
      untouched = elim (Bool-cases (eqb k (key x))) [
        | inl b ↦ absurd (absent x (inl refl) (sym ((eqb_iff k (key x)).0 b)))
        | inr b ↦ rw b refl
      ]

module _ {R : Type 0} where
  pub IsIn-select :
      (p : R → Bool) (rows : List R) (r : R) → IsIn r rows → p r ≡ true → IsIn r (select p rows)
  unfolding select
  IsIn-select p [] r i h = absurd i
  IsIn-select p (x ∷ rows) r (inl here) h =
      let fits : p x ≡ true = ap p here ∙ h in rw fits (inl here)
  IsIn-select p (x ∷ rows) r (inr below) h = elim (Bool-cases (p x)) [
    | inl fits ↦ rw fits (inr (IsIn-select p rows r below h))
    | inr other ↦ rw other (IsIn-select p rows r below h)
  ]

  pub select-IsIn :
      (p : R → Bool) (rows : List R) (r : R) → IsIn r (select p rows) → IsIn r rows × (p r ≡ true)
  unfolding select
  select-IsIn p [] r i = absurd i
  select-IsIn p (x ∷ rows) r i = elim (Bool-cases (p x)) [
    | inl fits ↦ elim (let j : (x ≡ r) ⊎ IsIn r (select p rows) = rw fits at i in j) [
      | inl here ↦ (inl here, ap p (sym here) ∙ fits)
      | inr below ↦ let (j, h) = select-IsIn p rows r below in (inr j, h)
    ]
    | inr other ↦
        let (j, h) = select-IsIn p rows r (let j : IsIn r (select p rows) = rw other at i in j) in
        (inr j, h)
  ]

  -- an id of the subquery is the best row's of some certificate
  best_ids_from :
      (id : R → ℕ) (best : ℕ → Option R) (certificates : List CertificateRow) (n : ℕ)
      → any (eqb n) (best_ids id best certificates) ≡ true
      → (c : ℕ) × (b : R) × (best c ≡ some b) × (n ≡ id b)
  unfolding best_ids id_and
  best_ids_from id best [] n h = absurd (cc h)
  best_ids_from id best (c ∷ certificates) n h = elim (Option-cases (best c.id)) [
    | inl nothing ↦ best_ids_from id best certificates n (rw nothing at h)
    | inr (b, something) ↦ elim (Bool-cases (eqb n (id b))) [
      | inl here ↦ (c.id, b, something, (eqb_iff n (id b)).0 here)
      | inr other ↦ best_ids_from id best certificates n (rw other at (rw something at h))
    ]
  ]

  best_ids_of :
      (id : R → ℕ) (best : ℕ → Option R) (certificates : List CertificateRow) (c : CertificateRow)
      (b : R)
      → IsIn c certificates
      → best c.id ≡ some b
      → any (eqb (id b)) (best_ids id best certificates) ≡ true
  unfolding best_ids id_and
  best_ids_of id best [] c b i h = absurd i
  best_ids_of id best (x ∷ certificates) c b (inl here) h =
      let e : best x.id ≡ some b = ap (λ (k : CertificateRow). best k.id) here ∙ h in
      rw e (rw (eqb_refl (id b)) refl)
  best_ids_of id best (x ∷ certificates) c b (inr below) h =
      let ih = best_ids_of id best certificates c b below h in
      elim (Option-cases (best x.id)) [
        | inl nothing ↦ rw nothing ih
        | inr (a, something) ↦ rw something (ground (arith, ih))
      ]

-- the best row of each owner
pub record IsBest {R : Type 0} (owner : R → ℕ) (best : ℕ → Option R) (rows : List R) : Type 0 where
  pub member : (c : ℕ) (r : R) → best c ≡ some r → IsIn r rows × (owner r ≡ c)
  pub total : (r : R) → IsIn r rows → best (owner r) ≢ none

module _ {R V : Type 0} (id owner : R → ℕ) (value : R → V) (best : ℕ → Option R)
    (rows : List R) where
  -- the only row of an owner that the statement gives
  only_best :
      (certificates : List CertificateRow) (k : ℕ) (b r : R)
      → AreUnique id rows
      → IsBest owner best rows
      → best k ≡ some b
      → IsIn r (select_best id best certificates rows)
      → owner r ≡ k
      → r ≡ b
  unfolding select_best
  only_best certificates k b r u best_of h i e =
      let (present, fits) =
        select-IsIn (λ s. any (eqb (id s)) (best_ids id best certificates)) rows r i in
      let (c, b', chosen, same_id) = best_ids_from id best certificates (id r) fits in
      let (present', owned) = best_of.member c b' chosen in
      let same : r ≡ b' = AreUnique-same id rows r b' u present present' same_id in
      let same_owner : c ≡ k = sym owned ∙ ap owner (sym same) ∙ e in
      let both : some b' ≡ some b = sym chosen ∙ ap best same_owner ∙ h in same ∙ (cc both)

  pub index_best :
      (certificates : List CertificateRow) (c : CertificateRow)
      → AreUnique id rows
      → IsBest owner best rows
      → IsIn c certificates
      → index owner value (select_best id best certificates rows) no_entry c.id
        ≡ Option.map value (best c.id)
  index_best certificates c u best_of i = elim (Option-cases (best c.id)) [
    | inr (b, h) ↦
        let (present, owned) = best_of.member c.id b h in
        rw h (
          index-some owner value (select_best id best certificates rows) no_entry c.id (value b)
            (λ r j e. ap value (only_best certificates c.id b r u best_of h j e))
            (inl (b, selected b present h, owned)))
    | inl h ↦ rw h (
        index-none owner value (select_best id best certificates rows) no_entry c.id
          (λ r j e. best_of.total r (present_of r j) (ap best e ∙ h)))
  ]
    where
      selected :
          (b : R)
          → IsIn b rows
          → best c.id ≡ some b
          → IsIn b (select_best id best certificates rows)
      selected b present h =
          unfold select_best in
          IsIn-select _ rows b present (best_ids_of id best certificates c b i h)

      present_of : (r : R) → IsIn r (select_best id best certificates rows) → IsIn r rows
      present_of r j =
          (select-IsIn (λ s. any (eqb (id s)) (best_ids id best certificates)) rows r
            (unfold select_best in j)).0
