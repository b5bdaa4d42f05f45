-- ===== src/ApiKeys/Holder.antt =====
-- What a principal takes over from its key (backend/database/repository/api_key_repository.go).
use cert_vault.Prelude.{
  ℕ, String, ◌≡◌, ◌↔◌, ◌∙◌, refl, Bool, true, some, List, [], ◌∷◌, map, arith, eqb, eqb_iff,
  Bool-cases, inl, inr, sym, ap, In, IsIn, select,
}
use cert_vault.Database.{Database, ApiKeyRow, AccessRow}
use cert_vault.Database.Rows.{first}
use cert_vault.Database.Find.{certificate_name}
use cert_vault.ApiKeys.{Principal, principal_of, certificate_names}
use cert_vault.ApiKeys.Access.{In-sort_strings}

-- what a principal says of the key that it stands for, on the tables of a database
pub record IsPrincipalOf (db : Database) (row : ApiKeyRow) (p : Principal) : Type 0 where
  pub key_id : p.key_id ≡ row.id
  pub name : p.name ≡ row.name
  pub scopes : p.scopes ≡ row.scopes
  pub all_certificates : p.all_certificates ≡ row.all_certificates
  pub certificates :
      (name : String)
      → In name p.certificates ↔ (
          (a : AccessRow) × IsIn a db.access
          × (a.api_key_id ≡ row.id)
          × (certificate_name db a.certificate_id ≡ name))

In-map :
    (f : AccessRow → String) (name : String) (rows : List AccessRow)
    → In name (map f rows) ↔ ((a : AccessRow) × IsIn a rows × (f a ≡ name))
In-map f name [] = ((λ h. absurd h), (λ h. let (a, member, e) = h in absurd member))
In-map f name (r ∷ rows) =
    let ih = In-map f name rows in
    (
      (λ h. elim h [
        | inl e ↦ (r, inl refl, e)
        | inr later ↦ let (a, member, e) = ih.0 later in (a, inr member, e)
      ]),
      (λ h.
          let (a, member, e) = h in
          elim member [ inl same ↦ inl (ap f same ∙ e) | inr later ↦ inr (ih.1 (a, later, e)) ]),
    )

IsIn-select :
    (id : ℕ) (a : AccessRow) (rows : List AccessRow)
    → IsIn a (select (λ r. eqb r.api_key_id id) rows) ↔ (IsIn a rows × (a.api_key_id ≡ id))
unfolding select
IsIn-select id a [] = ((λ h. absurd h), (λ h. absurd h.0))
IsIn-select id a (r ∷ rows) =
    let ih = IsIn-select id a rows in
    elim (Bool-cases (eqb r.api_key_id id)) [
      | inl own ↦ rw own (
        (λ h. elim h [
          | inl e ↦ (inl e, sym (ap (λ k. k.api_key_id) e) ∙ (eqb_iff r.api_key_id id).0 own)
          | inr later ↦ let (member, e) = ih.0 later in (inr member, e)
        ]),
        (λ h. elim h.0 [ inl e ↦ inl e | inr later ↦ inr (ih.1 (later, h.1)) ]),
      )
      | inr other ↦ rw other (
        (λ h. let (member, e) = ih.0 h in (inr member, e)),
        (λ h. elim h.0 [
          | inl e ↦
              let same : eqb r.api_key_id id ≡ true =
                (eqb_iff r.api_key_id id).1 (ap (λ k. k.api_key_id) e ∙ h.1) in
              absurd (cc (same, other))
          | inr later ↦ ih.1 (later, h.1)
        ]),
      )
    ]

pub first-IsIn :
    (p : ApiKeyRow → Bool) (rows : List ApiKeyRow) (row : ApiKeyRow)
    → first p rows ≡ some row
    → IsIn row rows
unfolding first
first-IsIn p [] row h = absurd (cc)
first-IsIn p (r ∷ rows) row h = elim (Bool-cases (p r)) [
  | inl fits ↦ inl (ground arith)
  | inr not_fits ↦ inr (first-IsIn p rows row (rw not_fits at h))
]

module _ (sha256_hex : String → String) where
  -- the names that the preload brings in for a key
  abbrev pub AreNamesOf : Database → ApiKeyRow → List String → Type 0
  AreNamesOf db row names =
      names ≡ certificate_names sha256_hex (select (λ a. eqb a.api_key_id row.id) db.access) db

  pub principal_of-IsPrincipalOf :
      (db : Database) (row : ApiKeyRow) (names : List String)
      → AreNamesOf db row names
      → IsPrincipalOf db row (principal_of sha256_hex row names)
  unfolding principal_of certificate_names
  principal_of-IsPrincipalOf db row names image = record {
    key_id = refl;
    name = refl;
    scopes = refl;
    all_certificates = refl;
    certificates = λ name.
        let own = select (λ a. eqb a.api_key_id row.id) db.access in
        let named : AccessRow → String = λ a. certificate_name db a.certificate_id in
        let sorted = In-sort_strings name (map named own) in
        let image' = In-map named name own in
        rw image (
          (λ h.
              let (a, member, e) = image'.0 (sorted.0 h) in
              let (stored, id) = (IsIn-select row.id a db.access).0 member in (a, stored, id, e)),
          (λ h.
              let (a, stored, id, e) = h in
              sorted.1 (image'.1 (a, (IsIn-select row.id a db.access).1 (stored, id), e))),
        );
  }
