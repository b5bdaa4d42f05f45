-- ===== src/BundleCache/Bounds.antt =====
-- The size field, the bound on memory, and the absence of an index panic (backend/api/bundle.go).
use cert_vault.Prelude.{
  ℕ, ◌+◌, ◌-◌, ◌≤◌, String, ◌≡◌, refl, ap, some, List, [], ◌∷◌, ◌++◌, length, arith, ltb,
  Bool-cases, Option-cases, inl, inr,
}
use cert_vault.Prelude.Outcome.{Outcome, ok, err}
use cert_vault.BundleCache.{
  bundle_cache_limit, Bytes, CachedBundle, BundleCache, find, evict, Reply, panicked, replied,
  store, get,
}

-- the bytes that the entries hold
abbrev pub total : List CachedBundle → ℕ
total [] = 0
total (entry ∷ entries) = length entry.contents + total entries

pub record IsValid (c : BundleCache) : Type 0 where
  pub accounted : c.size ≡ total c.entries
  pub bounded : c.size ≤ bundle_cache_limit

total-append : (xs ys : List CachedBundle) → total (xs ++ ys) ≡ total xs + total ys
total-append [] ys = omega arith
total-append (x ∷ xs) ys = omega (arith, total-append xs ys)

total-find :
    (key : String) (entries : List CachedBundle) {found : CachedBundle} {others : List CachedBundle}
    → find key entries ≡ some (found, others)
    → total entries ≡ length found.contents + total others
unfolding find
total-find key [] h = absurd (cc)
total-find key (entry ∷ entries) {found} {others} h = elim (Option-cases (find key entries)) [
  | inl nothing ↦ ground arith
  | inr (p, something) ↦
      ground (arith, total-find key entries {found = p.0} {others = p.1} something)
]

-- what the eviction leaves: the oldest entries go, it never runs off the end, and the new bundle
-- fits
abbrev pub Evicts : ℕ → List CachedBundle → ℕ → Type 0
Evicts room entries size =
    (gone kept : List CachedBundle) × (left : ℕ) × (entries ≡ gone ++ kept)
    × (evict room entries size ≡ some (kept, left))
    × (left ≡ total kept)
    × (left + room ≤ bundle_cache_limit)

pub evict-Evicts :
    (room : ℕ) (entries : List CachedBundle) (size : ℕ)
    → room ≤ bundle_cache_limit
    → size ≡ total entries
    → Evicts room entries size
unfolding evict
evict-Evicts room [] size h e = ([], [], 0, refl, ground arith, refl, ground arith)
evict-Evicts room (entry ∷ entries) size h e =
    elim (Bool-cases (ltb bundle_cache_limit (size + room))) [
      | inl full ↦
          let (gone, kept, left, split, runs, counted, fits) =
            evict-Evicts room entries (size - length entry.contents) h (ground arith) in
          (entry ∷ gone, kept, left, ap (◌∷◌ entry) split, rw full runs, counted, fits)
      | inr fits ↦ ([], entry ∷ entries, size, refl, ground arith, e, ground arith)
    ]

-- a reply that is no panic and leaves a valid cache
abbrev pub RepliesValid : Reply → Type 0
RepliesValid panicked = ⊥
RepliesValid (replied c answer) = IsValid c

store-RepliesValid :
    (c : BundleCache) (key : String) (build : Outcome String Bytes)
    → IsValid c
    → RepliesValid (store c key build)
unfolding store
store-RepliesValid c key (err e) v = v
store-RepliesValid c key (ok contents) v =
    elim (Bool-cases (ltb bundle_cache_limit (length contents))) [
      | inl large ↦ rw large v
      | inr small ↦
          let (gone, kept, left, split, evicted, counted, fits) =
            evict-Evicts (length contents) c.entries c.size (ground arith) v.accounted in
          rw (small, evicted)
            (record {
              accounted =
                  omega (arith, total-append kept (record { key = key; contents = contents } ∷ []));
              bounded = fits;
            })
    ]

-- From a valid cache, `get` neither panics nor leaves an invalid one: the size field is the sum of
-- the cached lengths, and it is at most `bundle_cache_limit`.
pub get-RepliesValid :
    (c : BundleCache) (key : String) (build : Outcome String Bytes)
    → IsValid c
    → RepliesValid (get c key build)
unfolding get
get-RepliesValid c key build v = elim (Option-cases (find key c.entries)) [
  | inl miss ↦ rw miss (store-RepliesValid c key build v)
  | inr (p, hit) ↦ rw hit (record {
    accounted = omega (
      arith,
      v.accounted,
      total-find key c.entries {found = p.0} {others = p.1} hit,
      total-append p.1 (p.0 ∷ []),
    );
    bounded = v.bounded;
  })
]
