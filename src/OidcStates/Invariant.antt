-- ===== src/OidcStates/Invariant.antt =====
-- What every method of the state store keeps (backend/api/auth/oidc_state_store.go).
use cert_vault.Prelude.{
  ◌-◌, ◌≤◌, ◌<◌, String, ◌≡◌, ◌≢◌, refl, Bool, true, false, not, ◌||◌, Option, none, some, List, [],
  ◌∷◌, arith, ◌==◌, eq_iff, if◌then◌else◌, length, Bool-cases, Option-cases, inl, inr,
}
use cert_vault.Prelude.Dict.{Dict, lookup, insert, insert-IsDistinct, length-insert_of_some}
use cert_vault.Database.{Time}
use cert_vault.OidcStates.{
  oidc_max_states, oidc_max_states_per_ip, oidc_max_rate_clients, OidcFlow, LoginBucket,
  OidcStateStore, Randomness, count_of, token, new_state, admit, refuses, refilled_client,
  refilled_global, reserve, remove, take, take_found, discard, discard_found, sweep_flows,
  sweep_clients, swept, sweep, close, no_states, is_expired, is_nonempty,
}
use cert_vault.OidcStates.Counting.{AreExact-insert, flows_of, flows_of-insert, length-insert_new}
use cert_vault.OidcStates.Snapshot.{Present-refl}
use cert_vault.OidcStates.Bounds.{
  AreLimited, IsValid, remove-AreBounded, sweep_flows-AreBounded, sweep_clients-AreLimited,
}

-- what the early returns have established
pub record IsAdmissible (s : OidcStateStore) (now : Time) (peer : String) : Type 0 where
  pub open_store : s.closed ≡ false
  pub room : length s.flows < oidc_max_states
  pub share : count_of peer s.counts < oidc_max_states_per_ip
  pub known : lookup peer s.clients ≡ none → length s.clients < oidc_max_rate_clients
  pub globally : token ≤ (refilled_global s now).tokens
  pub locally : token ≤ (refilled_client s now peer).tokens

pub refuses-IsAdmissible :
    (s : OidcStateStore) (now : Time) (peer : String)
    → refuses s now peer ≡ false
    → IsAdmissible s now peer
unfolding refuses
refuses-IsAdmissible s now peer h = record {
  open_store = ground arith;
  room = ground arith;
  share = ground arith;
  known = λ e. ground arith;
  globally = ground arith;
  locally = ground arith;
}

insert-AreLimited :
    (peer : String) (client : LoginBucket) (clients : Dict LoginBucket)
    → (lookup peer clients ≡ none → length clients < oidc_max_rate_clients)
    → AreLimited clients
    → AreLimited (insert peer client clients)
insert-AreLimited peer client clients known l = record {
  distinct = insert-IsDistinct peer client clients l.distinct;
  few = elim (Option-cases (lookup peer clients)) [
    | inl absent ↦ omega (arith, length-insert_new peer client clients absent, known absent)
    | inr (old, present) ↦
        omega (arith, length-insert_of_some peer client old clients present, l.few)
  ];
}

admit-IsValid :
    (s : OidcStateStore) (r : Randomness) (now : Time) (peer : String) (global client : LoginBucket)
    → lookup r.key s.flows ≡ none
    → IsAdmissible s now peer
    → IsValid s
    → IsValid (admit s r now peer global client)
unfolding admit
admit-IsValid s r now peer global client fresh a v =
    let flow : OidcFlow = record { state = new_state r now; peer = peer } in
    record {
      bounded = record {
        exact = AreExact-insert r.key peer flow s.flows s.counts refl fresh v.bounded.exact;
        few = omega (arith, length-insert_new r.key flow s.flows fresh, a.room);
        fair = λ p. ground (
          arith,
          flows_of-insert p r.key flow s.flows fresh,
          v.bounded.fair p,
          v.bounded.exact.counted peer,
          a.share,
          eq_iff peer p,
        );
      };
      limited =
          insert-AreLimited peer (record client { tokens = client.tokens - token }) s.clients
            a.known v.limited;
      scheduled = λ _ idle. cc;
      emptied = λ shut. cc (a.open_store);
    }

reserve-IsValid :
    (s : OidcStateStore) (r : Randomness) (now : Time) (peer : String)
    → lookup r.key s.flows ≡ none
    → IsValid s
    → IsValid (reserve s r now peer).0
unfolding reserve
reserve-IsValid s r now peer fresh v = elim (Bool-cases (refuses s now peer)) [
  | inl refused ↦ rw refused v
  | inr admitted ↦ rw admitted (
      admit-IsValid s r now peer (refilled_global s now) (refilled_client s now peer) fresh
        (refuses-IsAdmissible s now peer admitted) v)
]

occupied :
    (key : String) (flow : OidcFlow) (flows : Dict OidcFlow)
    → lookup key flows ≡ some flow
    → flows ≢ []
unfolding lookup
occupied key flow [] h e = cc
occupied key flow (x ∷ flows) h e = cc

remove-IsValid :
    (key : String) (flow : OidcFlow) (s : OidcStateStore)
    → lookup key s.flows ≡ some flow
    → IsValid s
    → IsValid (remove key flow s)
remove-IsValid key flow s found v = record {
  bounded = remove-AreBounded key flow s found v.bounded;
  limited = unfold remove in v.limited;
  scheduled =
      unfold remove in λ up idle. absurd (occupied key flow s.flows found (v.scheduled up idle).0);
  emptied = unfold remove in λ shut. absurd (occupied key flow s.flows found (v.emptied shut).0);
}

take_found-IsValid :
    (key browser_token : String) (now : Time) (s : OidcStateStore) (o : Option OidcFlow)
    → lookup key s.flows ≡ o
    → IsValid s
    → IsValid (take_found key browser_token now s o).0
unfolding take_found
take_found-IsValid key browser_token now s none e v = v
take_found-IsValid key browser_token now s (some flow) e v =
    elim (Bool-cases (browser_token == "" || not (flow.state.browser_token == browser_token))) [
      | inl wrong ↦ rw wrong v
      | inr right ↦ rw right (remove-IsValid key flow s e v)
    ]

discard_found-IsValid :
    (key : String) (s : OidcStateStore) (o : Option OidcFlow)
    → lookup key s.flows ≡ o
    → IsValid s
    → IsValid (discard_found key s o)
unfolding discard_found
discard_found-IsValid key s none e v = v
discard_found-IsValid key s (some flow) e v = remove-IsValid key flow s e v

is_nonempty-nil {ℓ} : {A : Type ℓ} (xs : List A) → is_nonempty xs ≡ false → xs ≡ []
is_nonempty-nil [] h = refl
is_nonempty-nil (x ∷ xs) h = cc

sweep_flows_closed :
    (now : Time) (snapshot : Dict OidcFlow) (s : OidcStateStore)
    → (sweep_flows now snapshot s).closed ≡ s.closed
unfolding sweep_flows remove
sweep_flows_closed now [] s = refl
sweep_flows_closed now ((key, flow) ∷ snapshot) s = ground (
  arith,
  sweep_flows_closed now snapshot (if is_expired flow.state now then remove key flow s else s),
)

swept-IsValid :
    (now : Time) (s : OidcStateStore) → s.closed ≡ false → IsValid s → IsValid (swept now s)
unfolding swept
swept-IsValid now s up v = record {
  bounded =
      let b =
        sweep_flows-AreBounded now s.flows s v.bounded.exact.distinct_flows
          (Present-refl s.flows v.bounded.exact.distinct_flows) v.bounded in
      record { exact = b.exact; few = b.few; fair = b.fair };
  limited = sweep_clients-AreLimited now s.clients s.clients v.limited;
  scheduled = λ _ idle. (
    is_nonempty-nil (sweep_flows now s.flows s).flows (ground arith),
    is_nonempty-nil (sweep_clients now s.clients s.clients) (ground arith),
  );
  emptied = λ shut. cc (sweep_flows_closed now s.flows s, up, shut);
}

sweep_by :
    (s : OidcStateStore) (now : Time) (b : Bool)
    → s.closed ≡ b
    → IsValid s
    → IsValid (if b then record s { timer = false } else swept now s)
sweep_by s now true shut v = record {
  bounded = record { exact = v.bounded.exact; few = v.bounded.few; fair = v.bounded.fair };
  limited = v.limited;
  scheduled = λ up _. cc (shut, up);
  emptied = v.emptied;
}
sweep_by s now false up v = swept-IsValid now s up v

sweep-IsValid : (s : OidcStateStore) (now : Time) → IsValid s → IsValid (sweep s now)
unfolding sweep
sweep-IsValid s now v = sweep_by s now s.closed refl v

close-IsValid : (s : OidcStateStore) → IsValid (close s)
unfolding close count_of lookup flows_of
close-IsValid s = record {
  bounded = record {
    exact = record {
      distinct_flows = tt;
      distinct_counts = tt;
      counted = λ peer. refl;
      positive = λ peer e. cc;
    };
    few = omega arith;
    fair = λ peer. omega arith;
  };
  limited = record { distinct = tt; few = omega arith };
  scheduled = λ up _. cc;
  emptied = λ _. (refl, refl, refl);
}

pub no_states-IsValid : IsValid no_states
unfolding count_of lookup flows_of
no_states-IsValid = record {
  bounded = record {
    exact = record {
      distinct_flows = tt;
      distinct_counts = tt;
      counted = λ peer. refl;
      positive = λ peer e. cc;
    };
    few = omega arith;
    fair = λ peer. omega arith;
  };
  limited = record { distinct = tt; few = omega arith };
  scheduled = λ up idle. (refl, refl);
  emptied = λ _. (refl, refl, refl);
}

-- The methods, in any order. A new key is one that no flow has: `randomToken` gives 24 random bytes.
pub data Step (s : OidcStateStore) : OidcStateStore → Type 0 where
  reserved :
      (r : Randomness) (now : Time) (peer : String)
      → lookup r.key s.flows ≡ none
      → Step s (reserve s r now peer).0
  taken : (key browser_token : String) (now : Time) → Step s (take s key browser_token now).0
  discarded : (key : String) → Step s (discard s key)
  swept_at : (now : Time) → Step s (sweep s now)
  shut_down : Step s (close s)

pub data Reach (s : OidcStateStore) : OidcStateStore → Type 0 where
  here : Reach s s
  next : {t u : OidcStateStore} → Reach s t → Step t u → Reach s u

Step-IsValid : {s t : OidcStateStore} → Step s t → IsValid s → IsValid t
unfolding take discard
Step-IsValid {s} (reserved r now peer fresh) v = reserve-IsValid s r now peer fresh v
Step-IsValid {s} (taken key browser_token now) v =
    take_found-IsValid key browser_token now s (lookup key s.flows) refl v
Step-IsValid {s} (discarded key) v = discard_found-IsValid key s (lookup key s.flows) refl v
Step-IsValid {s} (swept_at now) v = sweep-IsValid s now v
Step-IsValid {s} shut_down v = close-IsValid s

-- Whatever methods run, in whatever order and at whatever times, a valid store stays valid: the
-- counts are those of the flows, the three bounds hold, a sweep is scheduled while there is
-- something to sweep, and a closed store is empty.
pub Reach-IsValid : {s t : OidcStateStore} → IsValid s → Reach s t → IsValid t
Reach-IsValid v here = v
Reach-IsValid v (next r st) = Step-IsValid st (Reach-IsValid v r)
