-- ===== src/ApiKeys/Access.antt =====
-- What a principal may do, and how a request's certificate names are normalised
-- (backend/database/repository/models.go and api_key_repository.go).
use mathlib.Core.Path.{subst}
use cert_vault.Prelude.{
  String, ◌≡◌, ◌⊎◌, ◌↔◌, ◌≢◌, refl, sym, inl, inr, Bool, true, false, Option, none, some, List, [],
  ◌∷◌, arith, ◌==◌, eq_iff, if◌then◌else◌, contains, contains_iff, In, Bool-cases,
}
use cert_vault.ApiKeys.{
  Principal, allows, insert_sorted, sort_strings, unique_names, normalize_certificate_access,
  text_le, access_of,
}

-- A principal may use a scope on a certificate exactly if it has the scope or "*", and the request
-- names no certificate, or the principal has all certificates or this one.
pub allows_iff :
    (p : Principal) (scope certificate : String)
    → (allows p scope certificate ≡ true) ↔ (
        (In scope p.scopes ⊎ In "*" p.scopes)
        × ((certificate ≡ "") ⊎ ((p.all_certificates ≡ true) ⊎ In certificate p.certificates)))
unfolding allows
allows_iff p scope certificate =
    let s = contains_iff p.scopes scope in
    let a = contains_iff p.scopes "*" in
    let c = contains_iff p.certificates certificate in
    let e = eq_iff certificate "" in
    ((λ h. (ground (arith, s, a), ground (arith, c, e))), (λ h. ground (arith, s, a, c, e)))

In-insert_sorted :
    (w a : String) (values : List String) → In w (insert_sorted a values) ↔ ((a ≡ w) ⊎ In w values)
unfolding insert_sorted
In-insert_sorted w a [] = ((λ h. h), (λ h. h))
In-insert_sorted w a (b ∷ values) = elim (Bool-cases (text_le a b)) [
  | inl le ↦ rw le ((λ h. h), (λ h. h))
  | inr gt ↦
      let ih = In-insert_sorted w a values in
      rw gt ((λ h. ground (arith, ih)), (λ h. ground (arith, ih)))
]

pub In-sort_strings : (w : String) (values : List String) → In w (sort_strings values) ↔ In w values
unfolding sort_strings
In-sort_strings w [] = ((λ h. h), (λ h. h))
In-sort_strings w (a ∷ values) =
    let ih = In-sort_strings w values in
    let here = In-insert_sorted w a (sort_strings values) in
    ((λ h. ground (arith, ih, here)), (λ h. ground (arith, ih, here)))

-- the loop, from the names seen so far
abbrev Gathers : List String → List String → Option (List String) → Type 0
Gathers seen certificates none = In "*" certificates
Gathers seen certificates (some names) =
    (In "*" certificates → ⊥) × ((w : String) → In w names ↔ (In w seen ⊎ In w certificates))

abbrev add_new : String → List String → List String
add_new c seen = if contains seen c then seen else c ∷ seen

In-add_new : (w c : String) (seen : List String) → In w (add_new c seen) ↔ ((c ≡ w) ⊎ In w seen)
In-add_new w c seen = elim (Bool-cases (contains seen c)) [
  | inl old ↦ rw old (
    (λ h. inr h),
    (λ h. elim h [ inl e ↦ subst (λ k. In k seen) e ((contains_iff seen c).0 old) | inr k ↦ k ]),
  )
  | inr new ↦ rw new ((λ h. h), (λ h. h))
]

Gathers-cons :
    (c : String) (seen certificates : List String) (o : Option (List String))
    → c ≢ "*"
    → Gathers (add_new c seen) certificates o
    → Gathers seen (c ∷ certificates) o
Gathers-cons c seen certificates none h g = inr g
Gathers-cons c seen certificates (some names) h (no_star, members) = (
  (λ star. elim star [ inl e ↦ h e | inr later ↦ no_star later ]),
  (λ w.
      let m = members w in
      let a = In-add_new w c seen in ((λ i. ground (arith, m, a)), (λ i. ground (arith, m, a)))),
)

unique_names-Gathers :
    (seen certificates : List String) → Gathers seen certificates (unique_names seen certificates)
unfolding unique_names
unique_names-Gathers seen [] = ((λ h. h), (λ w. ((λ h. inl h), (λ h. ground arith))))
unique_names-Gathers seen (c ∷ certificates) = elim (Bool-cases (c == "*")) [
  | inl star ↦ rw star (inl ((eq_iff c "*").0 star))
  | inr name ↦ rw name (
      Gathers-cons c seen certificates (unique_names (add_new c seen) certificates)
        (λ e. cc ((eq_iff c "*").1 e, name)) (unique_names-Gathers (add_new c seen) certificates))
]

-- no name stands twice
abbrev pub IsNodup : List String → Type 0
IsNodup [] = Unit
IsNodup (x ∷ xs) = (In x xs → ⊥) × IsNodup xs

abbrev MaybeNodup : Option (List String) → Type 0
MaybeNodup none = Unit
MaybeNodup (some names) = IsNodup names

add_new-IsNodup : (c : String) (seen : List String) → IsNodup seen → IsNodup (add_new c seen)
add_new-IsNodup c seen once = elim (Bool-cases (contains seen c)) [
  | inl old ↦ rw old once
  | inr new ↦
      rw new
        ((λ i. let e : contains seen c ≡ true = (contains_iff seen c).1 i in cc (e, new)), once)
]

unique_names-MaybeNodup :
    (seen certificates : List String) → IsNodup seen → MaybeNodup (unique_names seen certificates)
unfolding unique_names
unique_names-MaybeNodup seen [] once = once
unique_names-MaybeNodup seen (c ∷ certificates) once = elim (Bool-cases (c == "*")) [
  | inl star ↦ rw star tt
  | inr name ↦
      rw name (unique_names-MaybeNodup (add_new c seen) certificates (add_new-IsNodup c seen once))
]

insert_sorted-IsNodup :
    (a : String) (values : List String)
    → (In a values → ⊥)
    → IsNodup values
    → IsNodup (insert_sorted a values)
unfolding insert_sorted
insert_sorted-IsNodup a [] new once = ((λ i. i), tt)
insert_sorted-IsNodup a (b ∷ values) new once = elim (Bool-cases (text_le a b)) [
  | inl le ↦ rw le (new, once)
  | inr gt ↦ rw gt (
    (λ i. elim ((In-insert_sorted b a values).0 i) [
      | inl e ↦ new (inl (sym e))
      | inr later ↦ once.0 later
    ]),
    insert_sorted-IsNodup a values (λ i. new (inr i)) once.1,
  )
]

sort_strings-IsNodup : (values : List String) → IsNodup values → IsNodup (sort_strings values)
unfolding sort_strings
sort_strings-IsNodup [] once = tt
sort_strings-IsNodup (a ∷ values) once =
    insert_sorted-IsNodup a (sort_strings values) (λ i. once.0 ((In-sort_strings a values).0 i))
      (sort_strings-IsNodup values once.1)

-- the flag and the names that a list of requested names is normalised to
abbrev pub Normalizes : List String → Bool × List String → Type 0
Normalizes certificates access =
    ((access.0 ≡ true) × (access.1 ≡ []) × In "*" certificates)
    ⊎ ((access.0 ≡ false)
        × (In "*" certificates → ⊥)
        × IsNodup access.1
        × ((w : String) → In w access.1 ↔ In w certificates))

normalizes :
    (certificates : List String) (o : Option (List String))
    → Gathers [] certificates o
    → MaybeNodup o
    → Normalizes certificates (access_of o)
normalizes certificates none g once = inl (refl, refl, g)
normalizes certificates (some names) (no_star, members) once = inr (
  refl,
  no_star,
  sort_strings-IsNodup names once,
  (λ w.
      let m = members w in
      let s = In-sort_strings w names in
      ((λ i. ground (arith, m, s)), (λ i. ground (arith, m, s)))),
)

-- The normalised access is all certificates, without names, exactly if "*" is among the requested
-- names; otherwise it is the requested names, each once, and no others.
pub normalize_certificate_access-Normalizes :
    (certificates : List String)
    → Normalizes certificates (normalize_certificate_access certificates)
unfolding normalize_certificate_access
normalize_certificate_access-Normalizes certificates =
    normalizes certificates (unique_names [] certificates) (unique_names-Gathers [] certificates)
      (unique_names-MaybeNodup [] certificates tt)
