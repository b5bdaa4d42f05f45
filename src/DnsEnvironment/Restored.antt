-- ===== src/DnsEnvironment/Restored.antt =====
-- The environment is what it was (backend/service/mux_provider.go).
use cert_vault.Prelude.{
  String, ◌≡◌, ◌∙◌, refl, sym, Bool, true, Option, none, some, [], ◌∷◌, arith, ◌==◌, eq_iff,
  Bool-cases, Option-cases, inl, inr, text_eq_refl,
}
use cert_vault.Prelude.Dict.{
  Dict, lookup, insert, erase, IsDistinct, lookup-insert, lookup-erase, insert-IsDistinct,
  erase-IsDistinct,
}
use cert_vault.Prelude.Outcome.{Outcome, ok, err}
use cert_vault.Config.{is_some}
use cert_vault.Config.Texts.{has_suffix}
use cert_vault.DnsEnvironment.{
  EnvironmentError, Setup, save, set, set_from_file, set_credential, set_all, by_key, restore_all,
  then_continue, with_credential_environment,
}

-- the two environments have the same variables
abbrev pub Agree : Dict String → Dict String → Type 0
Agree a b = (key : String) → lookup key a ≡ lookup key b

-- what is saved is what the environment `v` held, and all else is unchanged
record IsSaved (v : Dict String) (s : Setup) : Type 0 where
  distinct : IsDistinct s.variables
  once : IsDistinct s.saved
  old :
      (key : String) (before : Option String)
      → lookup key s.saved ≡ some before
      → lookup key v ≡ before
  kept : (key : String) → lookup key s.saved ≡ none → lookup key s.variables ≡ lookup key v

save-IsSaved : (v : Dict String) (key : String) (s : Setup) → IsSaved v s → IsSaved v (save key s)
unfolding save
save-IsSaved v key s i = elim (Option-cases (lookup key s.saved)) [
  | inr (before, found) ↦ rw found i
  | inl new ↦ rw new (record {
    distinct = i.distinct;
    once = insert-IsDistinct key (lookup key s.variables) s.saved i.once;
    old = λ k before h. ground (
      arith,
      lookup-insert key k (lookup key s.variables) s.saved,
      eq_iff key k,
      i.old k before,
      i.kept key,
    );
    kept = λ k h.
        ground
          (arith, lookup-insert key k (lookup key s.variables) s.saved, eq_iff key k, i.kept k);
  })
]

saved : (key : String) (s : Setup) → is_some (lookup key (save key s).saved) ≡ true
unfolding save
saved key s = elim (Option-cases (lookup key s.saved)) [
  | inr (before, found) ↦ rw (found, found) refl
  | inl new ↦
      rw new (rw (lookup-insert key key (lookup key s.variables) s.saved, text_eq_refl key) refl)
]

write-IsSaved :
    (v : Dict String) (key value : String) (t : Setup)
    → is_some (lookup key t.saved) ≡ true
    → IsSaved v t
    → IsSaved v (record t { variables = insert key value t.variables })
write-IsSaved v key value t present i = record {
  distinct = insert-IsDistinct key value t.variables i.distinct;
  once = i.once;
  old = i.old;
  kept = λ k h. ground (arith, lookup-insert key k value t.variables, eq_iff key k, i.kept k);
}

module _ (read_file : String → Option String) (is_settable : String → Bool) where
  set-IsSaved :
      (v : Dict String) (key value : String) (s : Setup)
      → IsSaved v s
      → IsSaved v (set read_file is_settable key value s).1
  unfolding set
  set-IsSaved v key value s i = elim (Bool-cases (is_settable key)) [
    | inl fine ↦
        rw fine (write-IsSaved v key value (save key s) (saved key s) (save-IsSaved v key s i))
    | inr bad ↦ rw bad (save-IsSaved v key s i)
  ]

  set_from_file-IsSaved :
      (v : Dict String) (key : String) (o : Option String) (s : Setup)
      → IsSaved v s
      → IsSaved v (set_from_file read_file is_settable key o s).1
  unfolding set_from_file
  set_from_file-IsSaved v key none s i = i
  set_from_file-IsSaved v key (some contents) s i = set-IsSaved v _ _ s i

  set_credential-IsSaved :
      (v : Dict String) (key value : String) (s : Setup)
      → IsSaved v s
      → IsSaved v (set_credential read_file is_settable key value s).1
  unfolding set_credential
  set_credential-IsSaved v key value s i = elim (Bool-cases (value == "")) [
    | inl empty ↦ rw empty (elim (Bool-cases (is_some (lookup key s.variables))) [
      | inl inherited ↦ rw inherited i
      | inr absent ↦ rw absent i
    ])
    | inr given ↦ rw given (elim (Bool-cases (has_suffix key "_FILE")) [
      | inl file ↦ rw file (set_from_file-IsSaved v key (read_file value) s i)
      | inr plain ↦ rw plain (set-IsSaved v key value s i)
    ])
  ]

  then_continue-IsSaved :
      (v : Dict String) (more : Dict String) (r : Outcome EnvironmentError (Unit {0}) × Setup)
      → ((s : Setup) → IsSaved v s → IsSaved v (set_all read_file is_settable more s).1)
      → IsSaved v r.1
      → IsSaved v (then_continue read_file is_settable (set_all read_file is_settable more) r).1
  then_continue-IsSaved v more (ok u, s) h i = h s i
  then_continue-IsSaved v more (err e, s) h i = i

  set_all-IsSaved :
      (v : Dict String) (environment : Dict String) (s : Setup)
      → IsSaved v s
      → IsSaved v (set_all read_file is_settable environment s).1
  unfolding set_all
  set_all-IsSaved v [] s i = i
  set_all-IsSaved v ((key, value) ∷ more) s i =
      then_continue-IsSaved v more (set_credential read_file is_settable key value s)
        (set_all-IsSaved v more) (set_credential-IsSaved v key value s i)

  -- what the restoration makes of a key
  abbrev after : Option (Option String) → Option String → Option String
  after none now = now
  after (some before) now = before

  abbrev CanBeSaved : Dict (Option String) → Type 0
  CanBeSaved saved_values =
      (key old : String) → lookup key saved_values ≡ some (some old) → is_settable key ≡ true

  restore_all-lookup :
      (saved_values : Dict (Option String)) (variables : Dict String) (key : String)
      → IsDistinct saved_values
      → IsDistinct variables
      → CanBeSaved saved_values
      → ((restore_all read_file is_settable saved_values variables).0 ≡ [])
        × (lookup key (restore_all read_file is_settable saved_values variables).1
            ≡ after (lookup key saved_values) (lookup key variables))
  unfolding restore_all lookup
  restore_all-lookup [] variables key d e c = (refl, refl)
  restore_all-lookup ((k, none) ∷ more) variables key d e c =
      let ih =
        restore_all-lookup more (erase k variables) key d.1 (erase-IsDistinct k variables e)
          (λ j o h. c j o (ground (arith, eq_iff k j, d.0, h))) in
      (ih.0, ground (arith, ih.1, lookup-erase k key variables e, eq_iff k key, d.0))
  restore_all-lookup ((k, some old) ∷ more) variables key d e c =
      let fine : is_settable k ≡ true = c k old (ground (arith, text_eq_refl k)) in
      let ih =
        restore_all-lookup more (insert k old variables) key d.1
          (insert-IsDistinct k old variables e)
          (λ j o h. c j o (ground (arith, eq_iff k j, d.0, h))) in
      rw fine (ih.0, ground (arith, ih.1, lookup-insert k key old variables, eq_iff k key, d.0))

  begins-IsSaved :
      (v : Dict String) → IsDistinct v → IsSaved v (record { variables = v; saved = [] })
  unfolding lookup
  begins-IsSaved v d = record {
    distinct = d;
    once = tt;
    old = λ key before h. absurd (cc h);
    kept = λ key h. refl;
  }

  restored_lookup :
      (v : Dict String) (s : Setup) (key : String)
      → ((k old : String) → lookup k v ≡ some old → is_settable k ≡ true)
      → IsSaved v s
      → ((restore_all read_file is_settable s.saved s.variables).0 ≡ [])
        × (lookup key (restore_all read_file is_settable s.saved s.variables).1 ≡ lookup key v)
  restored_lookup v s key settable i =
      let (quiet, image) =
        restore_all-lookup s.saved s.variables key i.once i.distinct
          (λ k old h. settable k old (i.old k (some old) h)) in
      (quiet, image ∙ same)
    where
      same : after (lookup key s.saved) (lookup key s.variables) ≡ lookup key v
      same = elim (Option-cases (lookup key s.saved)) [
        | inl untouched ↦ rw untouched (i.kept key untouched)
        | inr (before, found) ↦ rw found (sym (i.old key before found))
      ]

  -- Whether the provider is made or any step fails, the environment afterwards has the variables
  -- that it had before, and the restoration gives no error, if `os.Setenv` takes the keys that the
  -- environment holds.
  pub with_credential_environment-Agree :
      {A : Type 0} (environment : Dict String) (create : Dict String → Outcome String A)
      (v : Dict String)
      → IsDistinct v
      → ((k old : String) → lookup k v ≡ some old → is_settable k ≡ true)
      → let after = (with_credential_environment read_file is_settable environment create v).1 in
        (after.0 ≡ []) × Agree after.1 v
  unfolding with_credential_environment
  with_credential_environment-Agree environment create v d settable =
      let s =
        (set_all read_file is_settable (by_key environment)
          (record { variables = v; saved = [] })).1 in
      let i : IsSaved v s = set_all-IsSaved v (by_key environment) _ (begins-IsSaved v d) in
      ((restored_lookup v s "" settable i).0, (λ key. (restored_lookup v s key settable i).1))
