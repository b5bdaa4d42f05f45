-- ===== src/BundleCache/Contents.antt =====
-- What a cached reply contains (backend/api/bundle.go).
use cert_vault.Prelude.{
  ◌≤◌, String, ◌≡◌, refl, ap, false, none, some, List, [], ◌∷◌, ◌++◌, All, All-append, length,
  arith, ltb, ◌==◌, Bool-cases, Option-cases, inl, inr, eq_iff, text_eq_refl, Option,
}
use cert_vault.Prelude.Outcome.{Outcome, ok}
use cert_vault.BundleCache.{
  bundle_cache_limit, Bytes, CachedBundle, BundleCache, find, Reply, panicked, replied, store, get,
}
use cert_vault.BundleCache.Bounds.{IsValid, evict-Evicts}

module _ (source : String → Bytes) where
  abbrev IsTrue : CachedBundle → Type 0
  IsTrue entry = entry.contents ≡ source entry.key

  -- every entry holds what `source` gives for its key
  abbrev pub IsCoherent : BundleCache → Type 0
  IsCoherent c = All IsTrue c.entries

  find-IsTrue :
      (key : String) (entries : List CachedBundle) {found : CachedBundle}
      {others : List CachedBundle}
      → find key entries ≡ some (found, others)
      → All IsTrue entries
      → (found.contents ≡ source key) × IsTrue found × All IsTrue others
  unfolding find
  find-IsTrue key [] h a = absurd (cc)
  find-IsTrue key (entry ∷ entries) {found} {others} h a = elim (Bool-cases (entry.key == key)) [
    | inl same ↦ ground (arith, eq_iff entry.key key)
    | inr other ↦ elim (Option-cases (find key entries)) [
      | inl nothing ↦ ground arith
      | inr (p, something) ↦
          let (exact, here, rest) =
            find-IsTrue key entries {found = p.0} {others = p.1} something a.1 in
          ground arith
    ]
  ]

  All-kept : (gone kept : List CachedBundle) → All IsTrue (gone ++ kept) → All IsTrue kept
  All-kept [] kept a = a
  All-kept (entry ∷ gone) kept a = All-kept gone kept a.1

  -- a reply that is no panic, has the given answer and leaves a coherent cache
  abbrev pub RepliesWith : Bytes → Reply → Type 0
  RepliesWith contents panicked = ⊥
  RepliesWith contents (replied c answer) = (answer ≡ ok contents) × IsCoherent c

  store-RepliesWith :
      (c : BundleCache) (key : String)
      → IsValid c
      → IsCoherent c
      → RepliesWith (source key) (store c key (ok (source key)))
  unfolding store
  store-RepliesWith c key v a = elim (Bool-cases (ltb bundle_cache_limit (length (source key)))) [
    | inl large ↦ rw large (refl, a)
    | inr small ↦
        let (gone, kept, left, split, evicted, counted, fits) =
          evict-Evicts (length (source key)) c.entries c.size (ground arith) v.accounted in
        rw (small, evicted)
          (refl, All-append IsTrue kept _ (All-kept gone kept (rw split at a)) (refl, tt))
  ]

  -- Caching cannot be seen in the answers: if `build` gives what `source` assigns to the key, then
  -- `get` on a valid cache that agrees with `source` answers that too, and still agrees with it.
  pub get-RepliesWith :
      (c : BundleCache) (key : String)
      → IsValid c
      → IsCoherent c
      → RepliesWith (source key) (get c key (ok (source key)))
  unfolding get
  get-RepliesWith c key v a = elim (Option-cases (find key c.entries)) [
    | inl miss ↦ rw miss (store-RepliesWith c key v a)
    | inr (p, hit) ↦
        let (exact, here, rest) = find-IsTrue key c.entries {found = p.0} {others = p.1} hit a in
        rw hit (ap ok exact, All-append IsTrue p.1 _ rest (here, tt))
  ]

find-append_new :
    (key : String) (entries : List CachedBundle) (entry : CachedBundle)
    → entry.key ≡ key
    → find key entries ≡ none
    → find key (entries ++ entry ∷ []) ≡ some (entry, entries)
unfolding find
find-append_new key [] entry e h = rw e (ground (arith, text_eq_refl key))
find-append_new key (x ∷ entries) entry e h = elim (Bool-cases (x.key == key)) [
  | inl same ↦ ground arith
  | inr other ↦ ground (arith, find-append_new key entries entry)
]

find-none_kept :
    (key : String) (gone kept : List CachedBundle)
    → find key (gone ++ kept) ≡ none
    → find key kept ≡ none
unfolding find
find-none_kept key [] kept h = h
find-none_kept key (x ∷ gone) kept h = elim (Bool-cases (x.key == key)) [
  | inl same ↦ absurd (ground arith)
  | inr other ↦ elim (Option-cases (find key (gone ++ kept))) [
    | inl nothing ↦ find-none_kept key gone kept nothing
    | inr (p, something) ↦ absurd (ground arith)
  ]
]

abbrev pub answer_of : Reply → Option (Outcome String Bytes)
answer_of panicked = none
answer_of (replied c answer) = some answer

-- a reply after which the key is answered with the contents, whatever `build` would give
abbrev pub Answers : String → Bytes → Outcome String Bytes → Reply → Type 0
Answers key contents build panicked = ⊥
Answers key contents build (replied c answer) = answer_of (get c key build) ≡ some (ok contents)

-- A bundle that was not cached and is no longer than the limit is cached by `get`: the next `get`
-- of its key answers it from memory, whatever its own `build` would give.
pub get-get_cached :
    (c : BundleCache) (key : String) (contents : Bytes) (later : Outcome String Bytes)
    → IsValid c
    → find key c.entries ≡ none
    → length contents ≤ bundle_cache_limit
    → Answers key contents later (get c key (ok contents))
unfolding get store
get-get_cached c key contents later v miss small =
    let (gone, kept, left, split, evicted, counted, fits) =
      evict-Evicts (length contents) c.entries c.size small v.accounted in
    let fresh : ltb bundle_cache_limit (length contents) ≡ false = ground arith in
    let entry : CachedBundle = record { key = key; contents = contents } in
    let found =
      find-append_new key kept entry refl (find-none_kept key gone kept (rw split at miss)) in
    rw (miss, fresh, evicted) (rw found)
