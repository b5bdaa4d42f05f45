-- ===== src/Artifacts/Termination.antt =====
-- The loop over PEM blocks ends (backend/service/certificate_artifacts.go).
use cert_vault.Prelude.{
  ℕ, suc, zero, ◌≤◌, ◌<◌, String, ◌≡◌, ◌≢◌, refl, not, ◌||◌, Option, some, List, [], ◌∷◌, arith,
  eqb, ◌==◌, length, Bool-cases, Option-cases, inl, inr,
}
use cert_vault.Prelude.Outcome.{Outcome, ok, err}
use cert_vault.Artifacts.{
  Bytes, bytes_of, trim_left, trim_end, trim_space, has_prefix, Block, ArtifactError, out_of_fuel,
  or_unparsable, certificate_of, prepend, decoded, round, parse_within, parse_certificate_pem,
}

length-trim_left-le : (bytes : Bytes) → length (trim_left bytes) ≤ length bytes
unfolding trim_left
length-trim_left-le [] = omega arith
length-trim_left-le (b ∷ bytes) = ground (arith, length-trim_left-le bytes)

length-trim_end-le : (bytes : Bytes) → length (trim_end bytes) ≤ length bytes
unfolding trim_end
length-trim_end-le [] = omega arith
length-trim_end-le (b ∷ bytes) = ground (arith, length-trim_end-le bytes)

length-trim_space-le : (bytes : Bytes) → length (trim_space bytes) ≤ length bytes
unfolding trim_space
length-trim_space-le bytes =
    omega (arith, length-trim_left-le bytes, length-trim_end-le (trim_left bytes))

module _ (Certificate : Type 0) (raw : Certificate → Bytes)
    (parse_certificate : Bytes → Outcome String Certificate)
    (decode : Bytes → Option (Block × Bytes)) (encode : Bytes → Bytes)
    (shrinks : (bytes rest : Bytes) (block : Block)
      → decode bytes ≡ some (block, rest)
      → length rest < length bytes) where
  abbrev Loop : Type 0
  Loop = Bytes → Outcome ArtifactError (List Certificate)

  abbrev within : ℕ → Loop
  within = parse_within Certificate raw parse_certificate decode encode

  abbrev one_round : Loop → Loop
  one_round = round Certificate raw parse_certificate decode encode

  round_same :
      (n m : Loop) (bytes : Bytes)
      → ((rest : Bytes) → length rest < length bytes → n rest ≡ m rest)
      → one_round n bytes ≡ one_round m bytes
  unfolding round decoded
  round_same n m [] h = refl
  round_same n m (b ∷ bytes) h =
      elim (Bool-cases (has_prefix (b ∷ bytes) (bytes_of "-----BEGIN CERTIFICATE-----"))) [
        | inr other ↦ rw other refl
        | inl begins ↦ rw begins (elim (Option-cases (decode (b ∷ bytes))) [
          | inl nothing ↦ rw nothing refl
          | inr (p, something) ↦
              rw something (rw (h p.1 (shrinks (b ∷ bytes) p.1 p.0 something)) refl)
        ])
      ]

  prepend_total :
      (c : Outcome ArtifactError Certificate) (later : Outcome ArtifactError (List Certificate))
      → c ≢ err out_of_fuel
      → later ≢ err out_of_fuel
      → prepend Certificate raw parse_certificate decode encode c later ≢ err out_of_fuel
  unfolding prepend
  prepend_total (err e) later h k q = h (cc q)
  prepend_total (ok c) (err e) h k q = k (cc q)
  prepend_total (ok c) (ok cs) h k q = cc q

  or_unparsable_total :
      (o : Outcome String Certificate)
      → or_unparsable Certificate raw parse_certificate decode encode o ≢ err out_of_fuel
  unfolding or_unparsable
  or_unparsable_total (ok c) q = cc q
  or_unparsable_total (err message) q = cc q

  certificate_of_total :
      (block : Block)
      → certificate_of Certificate raw parse_certificate decode encode block ≢ err out_of_fuel
  unfolding certificate_of
  certificate_of_total block q =
      elim (Bool-cases (not (block.kind == "CERTIFICATE") || not (eqb block.headers 0))) [
        | inl wrong ↦ cc (rw wrong at q)
        | inr right ↦ or_unparsable_total (parse_certificate block.bytes) (rw right at q)
      ]

  round_total :
      (n : Loop) (bytes : Bytes)
      → ((rest : Bytes) → length rest < length bytes → n rest ≢ err out_of_fuel)
      → one_round n bytes ≢ err out_of_fuel
  unfolding round decoded
  round_total n [] h q = cc q
  round_total n (b ∷ bytes) h q =
      elim (Bool-cases (has_prefix (b ∷ bytes) (bytes_of "-----BEGIN CERTIFICATE-----"))) [
        | inr other ↦ cc (rw other at q)
        | inl begins ↦ elim (Option-cases (decode (b ∷ bytes))) [
          | inl nothing ↦ cc (rw nothing at (rw begins at q))
          | inr (p, something) ↦
              prepend_total _ (n p.1) (certificate_of_total p.0)
                (h p.1 (shrinks (b ∷ bytes) p.1 p.0 something)) (rw something at (rw begins at q))
        ]
      ]

  within_same :
      (f g : ℕ) (bytes : Bytes)
      → length bytes < f
      → length bytes < g
      → within f bytes ≡ within g bytes
  unfolding parse_within
  within_same zero g bytes h k = absurd (omega arith)
  within_same (suc f) zero bytes h k = absurd (omega arith)
  within_same (suc f) (suc g) bytes h k =
      round_same (within f) (within g) (trim_space bytes) (λ rest l.
        within_same f g rest (omega (arith, length-trim_space-le bytes, h, l))
          (omega (arith, length-trim_space-le bytes, k, l)))

  within_total : (f : ℕ) (bytes : Bytes) → length bytes < f → within f bytes ≢ err out_of_fuel
  unfolding parse_within
  within_total zero bytes h q = omega arith
  within_total (suc f) bytes h q =
      round_total (within f) (trim_space bytes)
        (λ rest l. within_total f rest (omega (arith, length-trim_space-le bytes, h, l))) q

  -- The loop over PEM blocks ends: with more fuel than there are bytes it never runs out, and its
  -- answer does not depend on the fuel, if `pem.Decode` leaves fewer bytes than it is given.
  pub parse_certificate_pem_total :
      (fuel : ℕ) (bytes : Bytes)
      → length bytes < fuel
      → (within fuel bytes
          ≡ parse_certificate_pem Certificate raw parse_certificate decode encode bytes)
        × (parse_certificate_pem Certificate raw parse_certificate decode encode bytes
            ≢ err out_of_fuel)
  unfolding parse_certificate_pem
  parse_certificate_pem_total fuel bytes h = (
    within_same fuel (suc (length bytes)) bytes h (omega arith),
    within_total (suc (length bytes)) bytes (omega arith),
  )
