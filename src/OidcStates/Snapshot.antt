-- ===== src/OidcStates/Snapshot.antt =====
-- The entries that a Go `range` over a map has yet to visit, while the loop deletes visited ones.
use cert_vault.Prelude.{String, ◌≡◌, none, some, [], ◌∷◌, arith, eq_iff}
use cert_vault.Prelude.Dict.{Dict, lookup, erase, IsDistinct, lookup-erase}

module _ {V : Type 0} where
  -- the entries of a snapshot are still in the map
  abbrev pub Present : Dict V → Dict V → Type 0
  Present entries [] = Unit
  Present entries ((key, entry) ∷ more) = (lookup key entries ≡ some entry) × Present entries more

  Present-cons :
      (key : String) (entry : V) (entries more : Dict V)
      → lookup key entries ≡ none
      → Present entries more
      → Present ((key, entry) ∷ entries) more
  unfolding lookup
  Present-cons key entry entries [] absent p = tt
  Present-cons key entry entries ((k, f) ∷ more) absent p =
      (ground (arith, eq_iff key k), Present-cons key entry entries more absent p.1)

  pub Present-refl : (entries : Dict V) → IsDistinct entries → Present entries entries
  unfolding lookup
  Present-refl [] d = tt
  Present-refl ((key, entry) ∷ entries) d = (
    ground (arith, eq_iff key key),
    Present-cons key entry entries entries d.0 (Present-refl entries d.1),
  )

  pub Present-erase :
      (key : String) (entries more : Dict V)
      → IsDistinct entries
      → lookup key more ≡ none
      → Present entries more
      → Present (erase key entries) more
  unfolding lookup
  Present-erase key entries [] d absent p = tt
  Present-erase key entries ((k, f) ∷ more) d absent p = (
    ground (arith, lookup-erase key k entries d, eq_iff key k, eq_iff k key),
    Present-erase key entries more d (ground arith) p.1,
  )
