-- ===== src/ApiKeys/Split.antt =====
-- `strings.Split(token, ".")`.
use Prim.Native.Char.{Char, code}
use Prim.Native.String.{String}
use mathlib.Core.Path.{◌≡◌, refl}
use mathlib.Core.List.{List, [], ◌∷◌}
use mathlib.Core.Bool.{Bool, true, ◌&&◌, not}
use cert_vault.Prelude.{arith, eqb, if◌then◌else◌}

abbrev on_head : Char → List String → List String
on_head c [] = String.◌∷◌ c String.[] ∷ []
on_head c (s ∷ parts) = String.◌∷◌ c s ∷ parts

unfoldable pub split_dots : String → List String
split_dots String.[] = String.[] ∷ []
split_dots (String.◌∷◌ c s) =
    let parts = split_dots s in if eqb (code c) b'.' then String.[] ∷ parts else on_head c parts

unfoldable pub no_dot : String → Bool
no_dot String.[] = true
no_dot (String.◌∷◌ c s) = not (eqb (code c) b'.') && no_dot s

split_one : (s : String) → no_dot s ≡ true → split_dots s ≡ s ∷ []
unfolding split_dots no_dot
split_one String.[] h = refl
split_one (String.◌∷◌ c s) h = ground (arith, split_one s)

test_split : split_dots "a.b" ≡ "a" ∷ "b" ∷ []
unfolding split_dots
test_split = refl
