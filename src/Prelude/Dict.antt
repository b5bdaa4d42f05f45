-- ===== src/Prelude/Dict.antt =====
-- A Go `map[string]V` as an association list without repeated keys. `nil` and an emptied map are
-- both the empty list, since reads, `delete`, `clear` and `len` do not tell them apart.
use Prim.Native.Nat.{◌+◌, ◌≤◌}
use Prim.Native.String.{String}
use mathlib.Core.Path.{◌≡◌, refl}
use mathlib.Core.Option.{Option, none, some}
use mathlib.Core.List.{List, [], ◌∷◌}
use native.Mathlib.Omega.{arith}
use text.Mathlib.Text.{◌==◌}
use text.Mathlib.TextEquality.{eq_iff}
use cert_vault.Prelude.Tests.{if◌then◌else◌}
use cert_vault.Prelude.Lists.{length}

abbrev pub Dict {ℓ} : Type ℓ → Type ℓ
Dict V = List (String × V)

module _ {ℓ} {V : Type ℓ} where
  -- dict[key]
  unfoldable pub lookup : String → Dict V → Option V
  lookup key [] = none
  lookup key ((other, value) ∷ dict) =
      let later = lookup key dict in if other == key then some value else later

  -- dict[key] = new: in the place of the old value, or at the end
  unfoldable pub insert : String → V → Dict V → Dict V
  insert key new [] = (key, new) ∷ []
  insert key new ((other, old) ∷ dict) =
      let later = insert key new dict in
      if other == key then (other, new) ∷ dict else (other, old) ∷ later

  -- delete(m, k)
  unfoldable pub erase : String → Dict V → Dict V
  erase k [] = []
  erase k ((j, w) ∷ m) = if j == k then m else (j, w) ∷ erase k m

  -- no key stands twice
  abbrev pub IsDistinct : Dict V → Type ℓ
  IsDistinct [] = Unit
  IsDistinct ((j, v) ∷ m) = (lookup j m ≡ none) × IsDistinct m

  pub lookup-insert :
      (key wanted : String) (new : V) (dict : Dict V)
      → lookup wanted (insert key new dict)
        ≡ (if key == wanted then some new else lookup wanted dict)
  unfolding lookup insert
  lookup-insert key wanted new [] = refl
  lookup-insert key wanted new ((other, old) ∷ dict) =
      let ih = lookup-insert key wanted new dict in
      ground (arith, ih, eq_iff other key, eq_iff other wanted, eq_iff key wanted)

  pub lookup-erase :
      (k j : String) (m : Dict V)
      → IsDistinct m
      → lookup j (erase k m) ≡ (if k == j then none else lookup j m)
  unfolding lookup erase
  lookup-erase k j [] d = ground arith
  lookup-erase k j ((i, w) ∷ m) d =
      ground (arith, eq_iff k j, eq_iff i k, eq_iff i j, lookup-erase k j m)

  pub insert-IsDistinct :
      (k : String) (v : V) (m : Dict V) → IsDistinct m → IsDistinct (insert k v m)
  unfolding lookup insert
  insert-IsDistinct k v [] d = (refl, tt)
  insert-IsDistinct k v ((i, w) ∷ m) d =
      ground (arith, eq_iff i k, eq_iff k i, lookup-insert k i v m, insert-IsDistinct k v m)

  pub erase-IsDistinct : (k : String) (m : Dict V) → IsDistinct m → IsDistinct (erase k m)
  unfolding lookup erase
  erase-IsDistinct k [] d = tt
  erase-IsDistinct k ((i, w) ∷ m) d =
      ground (arith, eq_iff i k, eq_iff k i, lookup-erase k i m, erase-IsDistinct k m)

  -- an insertion makes the map longer only where the key is new
  pub length-insert : (k : String) (v : V) (m : Dict V) → length (insert k v m) ≤ length m + 1
  unfolding insert
  length-insert k v [] = omega arith
  length-insert k v ((i, w) ∷ m) = ground (arith, length-insert k v m)

  pub length-insert_of_some :
      (k : String) (v w : V) (m : Dict V) → lookup k m ≡ some w → length (insert k v m) ≡ length m
  unfolding lookup insert
  length-insert_of_some k v w [] h = absurd (cc)
  length-insert_of_some k v w ((i, x) ∷ m) h = ground (arith, length-insert_of_some k v w m)

  pub length-erase-le : (k : String) (m : Dict V) → length (erase k m) ≤ length m
  unfolding erase
  length-erase-le k [] = omega arith
  length-erase-le k ((i, w) ∷ m) = ground (arith, length-erase-le k m)
