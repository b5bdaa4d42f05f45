-- ===== src/Config/Texts.antt =====
-- What the configuration uses of Go's `strings`, on ASCII texts.
use Prim.Native.Char.{Char, code}
use cert_vault.Prelude.{
  ℕ, suc, String, Bool, true, false, Option, none, some, ◌||◌, eqb, ◌==◌, if◌then◌else◌,
}

lower_in : String → String → Char → Char
lower_in (String.◌∷◌ u uppers) (String.◌∷◌ l lowers) c =
    let later = lower_in uppers lowers c in if eqb (code c) (code u) then l else later
lower_in _ _ c = c

-- `strings.ToLower`
unfoldable pub to_lower : String → String
unfolding lower_in
to_lower String.[] = String.[]
to_lower (String.◌∷◌ c s) =
    String.◌∷◌ (lower_in "ABCDEFGHIJKLMNOPQRSTUVWXYZ" "abcdefghijklmnopqrstuvwxyz" c) (to_lower s)

after_prefix : String → String → Option String
after_prefix String.[] s = some s
after_prefix (String.◌∷◌ p prefix) String.[] = none
after_prefix (String.◌∷◌ p prefix) (String.◌∷◌ c s) =
    let later = after_prefix prefix s in if eqb (code c) (code p) then later else none

-- `strings.HasPrefix`
unfoldable pub has_prefix : String → String → Bool
unfolding after_prefix
has_prefix s prefix = elim (after_prefix prefix s) [ none ↦ false | some rest ↦ true ]

abbrev or_whole : String → Option String → String
or_whole s none = s
or_whole s (some rest) = rest

-- `strings.TrimPrefix`
unfoldable pub trim_prefix : String → String → String
unfolding after_prefix
trim_prefix s prefix = or_whole s (after_prefix prefix s)

-- `strings.TrimSuffix`
unfoldable pub trim_suffix : String → String → String
trim_suffix String.[] suffix = String.[]
trim_suffix (String.◌∷◌ c s) suffix =
    let rest = trim_suffix s suffix in
    if String.◌∷◌ c s == suffix then String.[] else String.◌∷◌ c rest

-- `strings.TrimRight` with one character
unfoldable pub trim_right : String → ℕ → String
trim_right String.[] cut = String.[]
trim_right (String.◌∷◌ c s) cut =
    let rest = trim_right s cut in
    if eqb (code c) cut
    then (if rest == "" then String.[] else String.◌∷◌ c rest)
    else String.◌∷◌ c rest

-- `strings.HasSuffix`
unfoldable pub has_suffix : String → String → Bool
has_suffix String.[] suffix = suffix == ""
has_suffix (String.◌∷◌ c s) suffix = suffix == String.◌∷◌ c s || has_suffix s suffix

-- `len`
unfoldable pub text_length : String → ℕ
text_length String.[] = 0
text_length (String.◌∷◌ c s) = suc (text_length s)

append : String → String → String
append String.[] t = t
append (String.◌∷◌ c s) t = String.◌∷◌ c (append s t)

-- "." + zone
unfoldable pub dotted : String → String
unfolding append
dotted zone = append "." zone
