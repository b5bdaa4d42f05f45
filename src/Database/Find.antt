-- ===== src/Database/Find.antt =====
-- backend/database/repository/helpers.go: the searches for a certificate that the repositories
-- share. GORM leaves a zero field of a struct condition out, so an empty name fits every row.
use cert_vault.Prelude.{ℕ, String, Bool, ◌&&◌, ◌||◌, Option, none, some, eqb, ◌==◌}
use cert_vault.Database.{Database, CertificateRow}
use cert_vault.Database.Exec.{Exec, query}
use cert_vault.Database.Rows.{first, or_not_found}

unfoldable pub by_name : String → CertificateRow → Bool
by_name name row = name == "" || row.name == name

unfoldable pub by_id : ℕ → CertificateRow → Bool
by_id id row = eqb row.id id

-- WHERE enabled = true AND name = ?
unfoldable pub enabled_by_name : String → CertificateRow → Bool
unfolding by_name
enabled_by_name name row = row.enabled && by_name name row

unfoldable pub find_certificate : String → Exec CertificateRow
unfolding by_name or_not_found query
find_certificate name = query (λ db. or_not_found (first (by_name name) db.certificates.rows))

unfoldable pub find_enabled_certificate : String → Exec CertificateRow
unfolding query
find_enabled_certificate name =
    query (λ db. or_not_found (first (enabled_by_name name) db.certificates.rows))

abbrev name_or_empty : Option CertificateRow → String
name_or_empty none = ""
name_or_empty (some row) = row.name

-- the name that `Preload("Certificate")` brings in
unfoldable pub certificate_name : Database → ℕ → String
certificate_name db id = name_or_empty (first (by_id id) db.certificates.rows)
