-- ===== src/BundleCache.antt =====
-- backend/api/bundle.go: the in-memory cache of tar bundles, least recently used first.
-- `sync.Mutex` makes each `get` one step. The contents are lists of bytes.
pub mod Bounds
pub mod Contents
mod Examples
use mathlib.Core.Option
use cert_vault.Prelude.{
  ℕ, ◌+◌, ◌-◌, String, Option, none, some, List, [], ◌∷◌, ◌++◌, length, ltb, ◌==◌, if◌then◌else◌,
}
use cert_vault.Prelude.Outcome.{Outcome, ok, err}

abbrev pub bundle_cache_limit : ℕ
bundle_cache_limit = 8388608  -- 8 << 20

abbrev pub Bytes : Type 0
Bytes = List ℕ

pub record CachedBundle : Type 0 where
  pub key : String
  pub contents : Bytes

pub record BundleCache : Type 0 where
  pub entries : List CachedBundle
  pub size : ℕ

abbrev behind : CachedBundle → CachedBundle × List CachedBundle → CachedBundle × List CachedBundle
behind entry (found, others) = (found, entry ∷ others)

-- The search loop: the entry with the key and the entries without it, in their order, which is
-- what `copy(c.entries[i:], c.entries[i+1:])` leaves before the last place.
unfoldable pub find : String → List CachedBundle → Option (CachedBundle × List CachedBundle)
find key [] = none
find key (entry ∷ entries) =
    let rest = find key entries in
    if entry.key == key then some (entry, entries) else Option.map (behind entry) rest

-- The eviction loop. Reading `c.entries[0]` of an empty slice panics, which is `none`.
unfoldable pub evict : ℕ → List CachedBundle → ℕ → Option (List CachedBundle × ℕ)
evict room [] size = if ltb bundle_cache_limit (size + room) then none else some ([], size)
evict room (entry ∷ entries) size =
    let rest = evict room entries (size - length entry.contents) in
    if ltb bundle_cache_limit (size + room) then rest else some (entry ∷ entries, size)

pub data Reply : Type 0 where
  panicked : Reply
  replied : BundleCache → Outcome String Bytes → Reply

admit : String → Bytes → Option (List CachedBundle × ℕ) → Reply
admit key contents none = panicked
admit key contents (some (entries, size)) =
    replied
      (record {
        entries = entries ++ record { key = key; contents = contents } ∷ [];
        size = size + length contents;
      })
      (ok contents)

-- What follows a miss, on the result of `build()`.
store : BundleCache → String → Outcome String Bytes → Reply
unfolding admit
store c key (err e) = replied c (err e)
store c key (ok contents) =
    if ltb bundle_cache_limit (length contents)
    then replied c (ok contents)
    else admit key contents (evict (length contents) c.entries c.size)

-- `build` is read only on a miss.
answer :
    BundleCache → String → Outcome String Bytes → Option (CachedBundle × List CachedBundle) → Reply
unfolding store
answer c key build (some (entry, others)) =
    replied (record c { entries = others ++ entry ∷ [] }) (ok entry.contents)
answer c key build none = store c key build

unfoldable pub get : BundleCache → String → Outcome String Bytes → Reply
unfolding answer
get c key build = answer c key build (find key c.entries)

unfoldable pub empty : BundleCache
empty = record { entries = []; size = 0 }
