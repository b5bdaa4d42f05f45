-- ===== src/Drift/Domains.antt =====
-- `sameDomains` compares sets (backend/service/configuration_drift.go).
use cert_vault.Prelude.{
  suc, ◌≤◌, String, ◌≡◌, ◌↔◌, ◌∙◌, refl, sym, true, List, [], ◌∷◌, map, arith, eqb, eqb_iff, ◌==◌,
  eq_iff, if◌then◌else◌, contains, contains_iff, In, length, Bool-cases, inl, inr,
}
use cert_vault.Config.Texts.{to_lower}
use cert_vault.Drift.{normalize, all_in, same_domains}

abbrev IsNodup : List String → Type 0
IsNodup [] = Unit
IsNodup (x ∷ xs) = (In x xs → ⊥) × IsNodup xs

abbrev IsSubset : List String → List String → Type 0
IsSubset xs ys = (w : String) → In w xs → In w ys

remove : String → List String → List String
remove x [] = []
remove x (y ∷ ys) = let rest = remove x ys in if y == x then ys else y ∷ rest

length-remove : (x : String) (ys : List String) → In x ys → length ys ≡ suc (length (remove x ys))
unfolding remove
length-remove x [] i = absurd i
length-remove x (y ∷ ys) i = ground (arith, eq_iff y x, length-remove x ys)

In-remove : (w x : String) (ys : List String) → (w ≡ x → ⊥) → In w ys → In w (remove x ys)
unfolding remove
In-remove w x [] ne i = i
In-remove w x (y ∷ ys) ne i = elim (Bool-cases (y == x)) [
  | inl here ↦ rw here (elim i [ inl e ↦ absurd (ne (sym e ∙ (eq_iff y x).0 here)) | inr j ↦ j ])
  | inr other ↦ rw other (elim i [ inl e ↦ inl e | inr j ↦ inr (In-remove w x ys ne j) ])
]

-- a set is no longer than a list that has all its elements
length-le_of_subset : (xs ys : List String) → IsNodup xs → IsSubset xs ys → length xs ≤ length ys
length-le_of_subset [] ys n s = omega arith
length-le_of_subset (x ∷ xs) ys n s = omega (
  arith,
  length-remove x ys (s x (inl refl)),
  length-le_of_subset xs (remove x ys) n.1
      (λ w i. In-remove w x ys (λ e. n.0 (let j : In x xs = rw (← e) i in j)) (s w (inr i))),
)

In-normalize :
    (domains : List String) (w : String) → In w (normalize domains) ↔ In w (map to_lower domains)
unfolding normalize
In-normalize [] w = ((λ i. i), (λ i. i))
In-normalize (d ∷ domains) w =
    let ih = In-normalize domains w in
    elim (Bool-cases (contains (normalize domains) (to_lower d))) [
      | inl old ↦ rw old (
        (λ i. inr (ih.0 i)),
        (λ i. elim i [
          | inl e ↦
              let j : In w (normalize domains) =
                rw (← e) ((contains_iff (normalize domains) (to_lower d)).0 old) in
              j
          | inr j ↦ ih.1 j
        ]),
      )
      | inr new ↦ rw new (
        (λ i. elim i [ inl e ↦ inl e | inr j ↦ inr (ih.0 j) ]),
        (λ i. elim i [ inl e ↦ inl e | inr j ↦ inr (ih.1 j) ]),
      )
    ]

normalize-IsNodup : (domains : List String) → IsNodup (normalize domains)
unfolding normalize
normalize-IsNodup [] = tt
normalize-IsNodup (d ∷ domains) = elim (Bool-cases (contains (normalize domains) (to_lower d))) [
  | inl old ↦ rw old (normalize-IsNodup domains)
  | inr new ↦ rw new (
    (λ i. cc ((contains_iff (normalize domains) (to_lower d)).1 i, new)),
    normalize-IsNodup domains,
  )
]

all_in_iff : (left right : List String) → (all_in left right ≡ true) ↔ IsSubset left right
unfolding all_in
all_in_iff [] right = ((λ h w i. absurd i), (λ s. refl))
all_in_iff (d ∷ left) right = elim (Bool-cases (contains right d)) [
  | inl there ↦ rw there (
    (λ h w i. elim i [
      | inl e ↦ let j : In w right = rw (← e) ((contains_iff right d).0 there) in j
      | inr j ↦ (all_in_iff left right).0 h w j
    ]),
    (λ s. (all_in_iff left right).1 (λ w i. s w (inr i))),
  )
  | inr absent ↦
      rw absent
        ((λ h. absurd (cc h)), (λ s. cc ((contains_iff right d).1 (s d (inl refl)), absent)))
]

-- a set within another of its size is the whole of it
whole :
    (xs ys : List String)
    → IsNodup xs
    → IsNodup ys
    → length xs ≡ length ys
    → IsSubset xs ys
    → IsSubset ys xs
whole xs ys n m e s w i = elim (Bool-cases (contains xs w)) [
  | inl there ↦ (contains_iff xs w).0 there
  | inr absent ↦ absurd (
      omega (
        arith,
        e,
        length-le_of_subset (w ∷ xs) ys ((λ j. cc ((contains_iff xs w).1 j, absent)), n)
            (λ v j. elim j [ inl same ↦ (let k : In v ys = rw (← same) i in k) | inr k ↦ s v k ]),
      ))
]

abbrev pub AreSame : List String → List String → Type 0
AreSame a b = (w : String) → In w (map to_lower a) ↔ In w (map to_lower b)

-- Two lists of domains are the same exactly if they have the same names, whatever their case, order
-- and repetitions.
pub same_domains_iff : (a b : List String) → (same_domains a b ≡ true) ↔ AreSame a b
unfolding same_domains
same_domains_iff a b =
    let left = normalize-IsNodup a in
    let right = normalize-IsNodup b in
    elim (Bool-cases (eqb (length (normalize a)) (length (normalize b)))) [
      | inl even ↦ rw even (
        (λ h w.
            let s = (all_in_iff (normalize a) (normalize b)).0 h in
            let t = whole (normalize a) (normalize b) left right ((eqb_iff _ _).0 even) s in
            (
              (λ i. (In-normalize b w).0 (s w ((In-normalize a w).1 i))),
              (λ i. (In-normalize a w).0 (t w ((In-normalize b w).1 i))),
            )),
        (λ h.
            (all_in_iff (normalize a) (normalize b)).1
              (λ w i. (In-normalize b w).1 ((h w).0 ((In-normalize a w).0 i)))),
      )
      | inr odd ↦ rw odd (
        (λ h. absurd (cc h)),
        (λ h. absurd (
            cc (
              odd,
              (eqb_iff (length (normalize a)) (length (normalize b))).1 (
                  omega (
                    arith,
                    length-le_of_subset (normalize a) (normalize b) left
                        (λ w i. (In-normalize b w).1 ((h w).0 ((In-normalize a w).0 i))),
                    length-le_of_subset (normalize b) (normalize a) right
                        (λ w i. (In-normalize a w).1 ((h w).1 ((In-normalize b w).0 i))),
                  )),
            ))),
      )
    ]
