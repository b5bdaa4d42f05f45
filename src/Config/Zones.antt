-- ===== src/Config/Zones.antt =====
-- Which zone a domain is in (backend/config/config.go, `findZone`).
use Prim.Native.Char.{Char}
use cert_vault.Prelude.{
  ◌⊎◌, ◌∙◌, ap, sym, ℕ, suc, ◌≤◌, ◌<◌, String, ◌≡◌, ◌≢◌, refl, Bool, true, false, ◌||◌, some, [],
  ◌∷◌, arith, ◌==◌, eq_iff, All, Bool-cases, inl, inr,
}
use cert_vault.Prelude.Dict.{Dict, lookup}
use cert_vault.Config.{improves, find_zone_from, find_zone}
use cert_vault.Config.Texts.{has_suffix, text_length, dotted}

-- an end of a text is the text or an end of its rest
has_suffix_cases :
    (c : Char) (s t : String)
    → has_suffix (String.◌∷◌ c s) t ≡ true
    → (t ≡ String.◌∷◌ c s) ⊎ (has_suffix s t ≡ true)
unfolding has_suffix
has_suffix_cases c s t h = elim (Bool-cases (t == String.◌∷◌ c s)) [
  | inl whole ↦ inl ((eq_iff t (String.◌∷◌ c s)).0 whole)
  | inr below ↦ inr (ground arith)
]

has_suffix_shorter : (s t : String) → has_suffix s t ≡ true → text_length t ≤ text_length s
unfolding text_length
has_suffix_shorter String.[] t h = rw ((eq_iff t "").0 (unfold has_suffix in h)) (omega arith)
has_suffix_shorter (String.◌∷◌ c s) t h = elim (has_suffix_cases c s t h) [
  | inl whole ↦ rw whole (omega arith)
  | inr below ↦ omega (arith, has_suffix_shorter s t below)
]

too_long :
    (c : Char) (s t u : String)
    → t ≡ String.◌∷◌ c s
    → has_suffix s u ≡ true
    → text_length t ≡ text_length u
    → ⊥
unfolding text_length
too_long c s t u whole below e =
    omega (arith, ap text_length whole, has_suffix_shorter s u below, e)

-- two ends of a text that are of one length are equal
has_suffix_unique :
    (s t u : String)
    → has_suffix s t ≡ true
    → has_suffix s u ≡ true
    → text_length t ≡ text_length u
    → t ≡ u
has_suffix_unique String.[] t u h k e =
    cc ((eq_iff t "").0 (unfold has_suffix in h), (eq_iff u "").0 (unfold has_suffix in k))
has_suffix_unique (String.◌∷◌ c s) t u h k e = elim (has_suffix_cases c s t h) [
  | inl whole ↦ elim (has_suffix_cases c s u k) [
    | inl whole' ↦ cc (whole, whole')
    | inr below ↦ absurd (too_long c s t u whole below e)
  ]
  | inr below ↦ elim (has_suffix_cases c s u k) [
    | inl whole ↦ absurd (too_long c s u t whole below (sym e))
    | inr below' ↦ has_suffix_unique s t u below below' e
  ]
]

-- the domain is the zone or below it
abbrev pub covers : String → String → Bool
covers domain zone = domain == zone || has_suffix domain (dotted zone)

dotted_length : (zone : String) → text_length (dotted zone) ≡ suc (text_length zone)
unfolding text_length dotted
dotted_length zone = refl

dotted_injective : (zone other : String) → dotted zone ≡ dotted other → zone ≡ other
unfolding dotted
dotted_injective zone other e = cc e

covers_unique :
    (domain zone other : String)
    → covers domain zone ≡ true
    → covers domain other ≡ true
    → text_length zone ≡ text_length other
    → zone ≡ other
covers_unique domain zone other h k e = ground (
  arith,
  eq_iff domain zone,
  eq_iff domain other,
  dotted_length zone,
  dotted_length other,
  has_suffix_shorter domain (dotted zone),
  has_suffix_shorter domain (dotted other),
  has_suffix_unique domain (dotted zone) (dotted other),
  dotted_injective zone other,
)

nonempty : (zone : String) → zone ≢ "" → 0 < text_length zone
unfolding text_length
nonempty String.[] h = absurd (h refl)
nonempty (String.◌∷◌ c s) h = omega arith

-- no zone of the list that covers the domain is longer
abbrev pub AreNoLonger : String → ℕ → Dict String → Type 0
AreNoLonger domain bound zones = All (λ e. covers domain e.0 ≡ true → text_length e.0 ≤ bound) zones

find_zone_from_kept :
    (domain best value : String) (zones : Dict String)
    → AreNoLonger domain (text_length best) zones
    → find_zone_from domain best value zones ≡ value
unfolding find_zone_from
find_zone_from_kept domain best value [] h = refl
find_zone_from_kept domain best value ((z, credential) ∷ zones) h =
    let not_better : improves domain best z ≡ false = unfold improves in ground (arith, h.0) in
    rw not_better (find_zone_from_kept domain best value zones h.1)

find_zone_from_found :
    (domain best value zone credential : String) (zones : Dict String)
    → covers domain zone ≡ true
    → lookup zone zones ≡ some credential
    → AreNoLonger domain (text_length zone) zones
    → text_length best < text_length zone
    → find_zone_from domain best value zones ≡ credential
unfolding find_zone_from lookup
find_zone_from_found domain best value zone credential [] c h l shorter = absurd (cc h)
find_zone_from_found domain best value zone credential ((z, cred) ∷ zones) c h l shorter =
    elim (Bool-cases (z == zone)) [
      | inl here ↦
          let same : z ≡ zone = (eq_iff z zone).0 here in
          let better : improves domain best z ≡ true = unfold improves in rw same (ground arith) in
          let value' : cred ≡ credential = ground (arith, here, h) in
          rw better (find_zone_from_kept domain z cred zones (rw same l.1) ∙ value')
      | inr other ↦
          let later : lookup zone zones ≡ some credential = ground (arith, other, h) in
          elim (Bool-cases (improves domain best z)) [
            | inl better ↦ rw better (
                find_zone_from_found domain z cred zone credential zones c later l.1 (
                  unfold improves in
                  ground (arith, l.0, covers_unique domain z zone, eq_iff z zone, other, better)))
            | inr worse ↦
                rw worse
                  (find_zone_from_found domain best value zone credential zones c later l.1 shorter)
          ]
    ]

-- A domain takes the credential of the longest zone that covers it, whatever the order in which the
-- loop meets the zones of the map.
pub find_zone-lookup :
    (domain zone credential : String) (zones : Dict String)
    → zone ≢ ""
    → covers domain zone ≡ true
    → lookup zone zones ≡ some credential
    → AreNoLonger domain (text_length zone) zones
    → find_zone domain zones ≡ credential
unfolding find_zone
find_zone-lookup domain zone credential zones given c h l =
    find_zone_from_found domain "" "" zone credential zones c h l
      (unfold text_length in nonempty zone given)
