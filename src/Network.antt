-- ===== src/Network.antt =====
-- backend/network/client_ip.go: the address that a request comes from. What it takes from net and
-- net/netip are the parameters of the section: the types of addresses and prefixes, `ParseAddr`,
-- `Unmap`, `String`, `Prefix.Contains` and `SplitHostPort`.
pub mod Forwarded
mod Examples
use Prim.Native.Char.{Char, code}
use mathlib.Core.Option
use cert_vault.Prelude.{
  ℕ, String, Bool, ◌&&◌, ◌||◌, leb, Option, none, some, List, [], ◌∷◌, ◌++◌, map, eqb, ◌==◌,
  if◌then◌else◌, any,
}

-- the two headers are "" where they are absent
pub record Request : Type 0 where
  pub remote_addr : String
  pub forwarded_for : String
  pub real_ip : String

abbrev between : ℕ → ℕ → ℕ → Bool
between low high n = leb low n && leb n high

-- `unicode.IsSpace`
abbrev is_space_code : ℕ → Bool
is_space_code n =
    between 9 13 n
    || eqb n 32
    || eqb n 133
    || eqb n 160
    || eqb n 5760
    || between 8192 8202 n
    || between 8232 8233 n
    || eqb n 8239
    || eqb n 8287
    || eqb n 12288

abbrev is_space : Char → Bool
is_space c = is_space_code (code c)

trim_left : String → String
trim_left String.[] = String.[]
trim_left (String.◌∷◌ c s) = let rest = trim_left s in if is_space c then rest else String.◌∷◌ c s

trim_end : String → String
trim_end String.[] = String.[]
trim_end (String.◌∷◌ c s) =
    let rest = trim_end s in
    if is_space c then (if rest == "" then String.[] else String.◌∷◌ c rest) else String.◌∷◌ c rest

-- `strings.TrimSpace`
unfoldable pub trim_space : String → String
unfolding trim_left trim_end
trim_space s = trim_end (trim_left s)

abbrev onto_first : Char → List String → List String
onto_first c [] = String.◌∷◌ c String.[] ∷ []
onto_first c (part ∷ parts) = String.◌∷◌ c part ∷ parts

-- `strings.Split(s, ",")`
unfoldable pub split_commas : String → List String
split_commas String.[] = String.[] ∷ []
split_commas (String.◌∷◌ c s) =
    let parts = split_commas s in
    if eqb (code c) b',' then String.[] ∷ parts else onto_first c parts

-- the loop goes from the last entry to the first
unfoldable pub backwards : List String → List String
backwards [] = []
backwards (entry ∷ entries) = backwards entries ++ entry ∷ []

module _ (Address Prefix : Type 0) (parse : String → Option Address) (unmap : Address → Address)
    (show : Address → String) (within : Prefix → Address → Bool)
    (split_host_port : String → Option String) where
  unfoldable pub trusted : List Prefix → Address → Bool
  trusted prefixes address = any (λ prefix. within prefix address) prefixes

  -- the loop, on the parsed entries; a text that is no address is none
  unfoldable pub scan : List Prefix → String → List (Option Address) → String
  scan prefixes peer [] = peer
  scan prefixes peer (none ∷ more) = peer
  scan prefixes peer (some address ∷ more) =
      let earlier = scan prefixes (show address) more in
      if trusted prefixes address then earlier else show address

  abbrev pub candidate : String → Option Address
  candidate entry = Option.map unmap (parse (trim_space entry))

  -- the answer from the entries of X-Forwarded-For
  unfoldable pub forwarded_ip : List Prefix → String → List String → String
  unfolding scan
  forwarded_ip prefixes peer entries = scan prefixes peer (map candidate (backwards entries))

  abbrev or_peer : String → Option Address → String
  or_peer peer none = peer
  or_peer peer (some address) = show address

  abbrev or_address : String → Option String → String
  or_address address none = address
  or_address address (some host) = host

  -- `hostOnly`
  unfoldable pub host_only : String → String
  host_only address = or_address address (split_host_port address)

  behind_proxy : List Prefix → String → Request → String
  unfolding trim_space split_commas forwarded_ip
  behind_proxy prefixes peer r =
      if trim_space r.forwarded_for == ""
      then or_peer peer (candidate r.real_ip)
      else forwarded_ip prefixes peer (split_commas (trim_space r.forwarded_for))

  from_peer : List Prefix → String → Request → Option Address → String
  unfolding behind_proxy trusted
  from_peer prefixes peer r none = peer
  from_peer prefixes peer r (some address) =
      if trusted prefixes (unmap address) then behind_proxy prefixes peer r else peer

  unfoldable pub client_ip : List Prefix → Request → String
  unfolding from_peer host_only
  client_ip prefixes r =
      from_peer prefixes (host_only r.remote_addr) r (parse (host_only r.remote_addr))
