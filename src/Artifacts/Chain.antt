-- ===== src/Artifacts/Chain.antt =====
-- The chain that is stored (backend/service/certificate_artifacts.go).
use cert_vault.Prelude.{
  String, ◌≡◌, ◌⊎◌, ◌↔◌, refl, sym, ap, true, Option, List, [], ◌∷◌, ◌++◌, map, arith, IsIn,
  Bool-cases, inl, inr,
}
use cert_vault.Prelude.Outcome.{Outcome}
use cert_vault.Artifacts.{Bytes, Block, same_bytes, seen_in, chain_of, artifacts_of}

same_bytes_iff : (a b : Bytes) → (same_bytes a b ≡ true) ↔ (a ≡ b)
unfolding same_bytes
same_bytes_iff [] [] = ((λ _. refl), (λ _. refl))
same_bytes_iff [] (c ∷ cs) = ((λ h. absurd (cc h)), (λ h. absurd (cc h)))
same_bytes_iff (b ∷ bs) [] = ((λ h. absurd (cc h)), (λ h. absurd (cc h)))
same_bytes_iff (b ∷ bs) (c ∷ cs) =
    let ih = same_bytes_iff bs cs in ((λ h. ground (arith, ih)), (λ h. ground (arith, ih)))

seen_in_iff : (seen : List Bytes) (w : Bytes) → (seen_in seen w ≡ true) ↔ IsIn w seen
unfolding seen_in
seen_in_iff [] w = ((λ h. absurd (cc h)), (λ h. absurd h))
seen_in_iff (s ∷ seen) w =
    let ih = seen_in_iff seen w in
    let here = same_bytes_iff s w in
    ((λ h. ground (arith, ih, here)), (λ h. ground (arith, ih, here)))

-- no element stands twice
abbrev pub IsNodup : List Bytes → Type 0
IsNodup [] = Unit
IsNodup (x ∷ xs) = (IsIn x xs → ⊥) × IsNodup xs

abbrev pub joined : List Bytes → Bytes
joined [] = []
joined (x ∷ xs) = x ++ joined xs

-- the elements that the loop adds to `seen`
record Adds (encode : Bytes → Bytes) (seen issuers : List Bytes) (chain : Bytes) : Type 0 where
  raws : List Bytes
  image : chain ≡ joined (map encode raws)
  nodup : IsNodup raws
  fresh : (w : Bytes) → IsIn w raws → IsIn w seen → ⊥
  given : (w : Bytes) → IsIn w raws → IsIn w issuers
  covers : (w : Bytes) → IsIn w issuers → IsIn w seen ⊎ IsIn w raws

skip_issuer :
    (encode : Bytes → Bytes) (seen issuers : List Bytes) (x : Bytes) (chain : Bytes)
    → IsIn x seen
    → Adds encode seen issuers chain
    → Adds encode seen (x ∷ issuers) chain
skip_issuer encode seen issuers x chain old a = record {
  raws = a.raws;
  image = a.image;
  nodup = a.nodup;
  fresh = a.fresh;
  given = λ w i. inr (a.given w i);
  covers = λ w i. elim i [ inl e ↦ inl (rw (← e) old) | inr j ↦ a.covers w j ];
}

take_issuer :
    (encode : Bytes → Bytes) (seen issuers : List Bytes) (x : Bytes) (chain : Bytes)
    → (IsIn x seen → ⊥)
    → Adds encode (x ∷ seen) issuers chain
    → Adds encode seen (x ∷ issuers) (encode x ++ chain)
take_issuer encode seen issuers x chain new a = record {
  raws = x ∷ a.raws;
  image = ap (λ r. encode x ++ r) a.image;
  nodup = ((λ i. a.fresh x i (inl refl)), a.nodup);
  fresh = λ w i j. elim i [ inl e ↦ new (rw e j) | inr k ↦ a.fresh w k (inr j) ];
  given = λ w i. elim i [ inl e ↦ inl e | inr k ↦ inr (a.given w k) ];
  covers = λ w i. elim i [
    | inl e ↦ inr (inl e)
    | inr j ↦ elim (a.covers w j) [
      | inl k ↦ elim k [ inl e ↦ inr (inl e) | inr l ↦ inl l ]
      | inr k ↦ inr (inr k)
    ]
  ];
}

-- The stored chain is the encoding of some issuers: each once, none the leaf itself, and each
-- issuer that is given, but the leaf, among them.
pub record IsChain (encode : Bytes → Bytes) (leaf : Bytes) (issuers : List Bytes) (chain : Bytes)
    : Type 0 where
  pub raws : List Bytes
  pub image : chain ≡ joined (map encode raws)
  pub nodup : IsNodup (leaf ∷ raws)
  pub given : (w : Bytes) → IsIn w raws → IsIn w issuers
  pub covers : (w : Bytes) → IsIn w issuers → (w ≡ leaf) ⊎ IsIn w raws

module _ (Certificate : Type 0) (raw : Certificate → Bytes)
    (parse_certificate : Bytes → Outcome String Certificate)
    (decode : Bytes → Option (Block × Bytes)) (encode : Bytes → Bytes) where
  chain_of-Adds :
      (seen : List Bytes) (issuers : List Certificate)
      → Adds encode seen
          (map raw issuers)
          (chain_of Certificate raw parse_certificate decode encode seen issuers)
  unfolding chain_of
  chain_of-Adds seen [] = record {
    raws = [];
    image = refl;
    nodup = tt;
    fresh = λ w i. absurd i;
    given = λ w i. i;
    covers = λ w i. absurd i;
  }
  chain_of-Adds seen (issuer ∷ issuers) = elim (Bool-cases (seen_in seen (raw issuer))) [
    | inl old ↦ rw old (
        skip_issuer encode seen (map raw issuers) (raw issuer) _
          ((seen_in_iff seen (raw issuer)).0 old) (chain_of-Adds seen issuers))
    | inr new ↦ rw new (
        take_issuer encode seen (map raw issuers) (raw issuer) _
          (λ i. cc ((seen_in_iff seen (raw issuer)).1 i, new))
          (chain_of-Adds (raw issuer ∷ seen) issuers))
  ]

  -- The files that are made of a leaf and its issuers: the leaf's encoding, a chain that has each
  -- issuer once and never the leaf, and both together.
  pub artifacts_of-IsChain :
      (leaf : Certificate) (issuers : List Certificate)
      → let a = artifacts_of Certificate raw parse_certificate decode encode leaf issuers in
        (a.leaf ≡ encode (raw leaf))
        × (a.full_chain ≡ a.leaf ++ a.chain)
        × IsChain encode (raw leaf) (map raw issuers) a.chain
  unfolding artifacts_of
  artifacts_of-IsChain leaf issuers =
      let a = chain_of-Adds (raw leaf ∷ []) issuers in
      (
        refl,
        refl,
        record {
          raws = a.raws;
          image = a.image;
          nodup = ((λ i. a.fresh (raw leaf) i (inl refl)), a.nodup);
          given = a.given;
          covers = λ w i. elim (a.covers w i) [
            | inl s ↦ elim s [ inl e ↦ inl (sym e) | inr j ↦ absurd j ]
            | inr j ↦ inr j
          ];
        },
      )
