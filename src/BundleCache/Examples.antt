-- ===== src/BundleCache/Examples.antt =====
-- The bundle cache at concrete requests.
use cert_vault.Prelude.{String, ◌≡◌, refl, [], ◌∷◌, arith}
use cert_vault.Prelude.Outcome.{ok, err}
use cert_vault.BundleCache.{bundle_cache_limit, Bytes, BundleCache, find, replied, get}
use cert_vault.BundleCache.Bounds.{IsValid, Evicts, evict-Evicts, RepliesValid, get-RepliesValid}
use cert_vault.BundleCache.Contents.{RepliesWith, get-RepliesWith, Answers, get-get_cached}

abbrev two_bundles : BundleCache
two_bundles = record {
  entries =
      record { key = "a"; contents = 1 ∷ 2 ∷ [] } ∷ record { key = "b"; contents = 3 ∷ [] } ∷ [];
  size = 3;
}

two_bundles-IsValid : IsValid two_bundles
two_bundles-IsValid = omega arith

-- a hit moves the entry to the end and does not read `build`
hit_moves :
    get two_bundles "a" (err "unread")
    ≡ replied
        (record {
          entries =
              record { key = "b"; contents = 3 ∷ [] }
              ∷ record { key = "a"; contents = 1 ∷ 2 ∷ [] }
              ∷ [];
          size = 3;
        })
        (ok (1 ∷ 2 ∷ []))
unfolding get find
hit_moves = refl

get-RepliesValid_example : RepliesValid (get two_bundles "c" (ok (4 ∷ [])))
get-RepliesValid_example = get-RepliesValid two_bundles "c" (ok (4 ∷ [])) two_bundles-IsValid

abbrev constant : String → Bytes
constant key = 7 ∷ []

abbrev one_bundle : BundleCache
one_bundle = record { entries = record { key = "a"; contents = 7 ∷ [] } ∷ []; size = 1 }

get-RepliesWith_example : RepliesWith constant (7 ∷ []) (get one_bundle "b" (ok (7 ∷ [])))
get-RepliesWith_example = get-RepliesWith constant one_bundle "b" (omega arith) (refl, tt)

get-get_cached_example : Answers "c" (4 ∷ []) (err "unread") (get two_bundles "c" (ok (4 ∷ [])))
get-get_cached_example =
    get-get_cached two_bundles "c" (4 ∷ []) (err "unread") two_bundles-IsValid (unfold find in refl)
      (omega arith)

-- both entries go where the new bundle leaves no room for them
evict-Evicts_example : Evicts bundle_cache_limit two_bundles.entries 3
evict-Evicts_example = evict-Evicts bundle_cache_limit two_bundles.entries 3 (omega arith) refl
