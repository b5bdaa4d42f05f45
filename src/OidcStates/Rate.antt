-- ===== src/OidcStates/Rate.antt =====
-- How many logins one address is let in for (backend/api/auth/oidc_state_store.go).
use cert_vault.Prelude.{
  ◌∙◌, ℕ, ◌+◌, ◌-◌, ◌*◌, ◌≤◌, String, ◌≡◌, refl, Bool, true, false, Option, none, some, List, [],
  ◌∷◌, arith, ◌==◌, eq_iff, if◌then◌else◌, Bool-cases, inl, inr,
}
use cert_vault.Prelude.Dict.{
  Dict, lookup, insert, erase, IsDistinct, lookup-insert, lookup-erase, insert-IsDistinct,
  erase-IsDistinct,
}
use cert_vault.Database.{Time}
use cert_vault.OidcStates.{
  token, oidc_login_rate, oidc_login_burst, OidcFlow, OidcState, LoginBucket, OidcStateStore,
  Randomness, new_state, refill, refilled_client, refilled_global, or_zero_bucket, admit, refuses,
  reserve, remove, take, take_found, discard, discard_found, sweep_clients, swept, sweep, is_idle,
}
use cert_vault.OidcStates.Snapshot.{Present, Present-refl, Present-erase}
use cert_vault.OidcStates.Bounds.{IsValid}
use cert_vault.OidcStates.Invariant.{refuses-IsAdmissible}

-- the credits of an address at a time, by its entry in `clients`
pub credit_in : Dict LoginBucket → Time → String → ℕ
unfolding refill
credit_in clients now peer =
    (refill (or_zero_bucket (lookup peer clients)) now oidc_login_rate oidc_login_burst).tokens

abbrev pub credit : OidcStateStore → Time → String → ℕ
credit s now peer = credit_in s.clients now peer

credit-le-burst :
    (clients : Dict LoginBucket) (now : Time) (peer : String)
    → credit_in clients now peer ≤ oidc_login_burst * token
unfolding credit_in
credit-le-burst clients now peer = ground arith

credit_later :
    (clients : Dict LoginBucket) (now later : Time) (peer : String)
    → now ≤ later
    → credit_in clients later peer ≤ credit_in clients now peer + (later - now) * oidc_login_rate
unfolding credit_in
credit_later clients now later peer h = ground arith

credit-insert :
    (clients : Dict LoginBucket) (now : Time) (peer p : String)
    → token ≤ credit_in clients now peer
    → let b = refill (or_zero_bucket (lookup peer clients)) now oidc_login_rate oidc_login_burst in
      credit_in (insert peer (record b { tokens = b.tokens - token }) clients) now p
        + (if peer == p then token else 0)
      ≤ credit_in clients now p
unfolding credit_in refill
credit-insert clients now peer p h =
    let b = refill (or_zero_bucket (lookup peer clients)) now oidc_login_rate oidc_login_burst in
    ground
      (arith, lookup-insert peer p (record b { tokens = b.tokens - token }) clients, eq_iff peer p)

credit-erase_idle :
    (clients : Dict LoginBucket) (client : LoginBucket) (now later : Time) (peer p : String)
    → IsDistinct clients
    → lookup peer clients ≡ some client
    → is_idle client now ≡ true
    → now ≤ later
    → credit_in (erase peer clients) later p ≡ credit_in clients later p
unfolding credit_in refill
credit-erase_idle clients client now later peer p d found idle h =
    ground (arith, lookup-erase peer p clients d, eq_iff peer p)

credit-sweep_clients :
    (now later : Time) (peer : String) (snapshot clients : Dict LoginBucket)
    → now ≤ later
    → IsDistinct snapshot
    → Present clients snapshot
    → IsDistinct clients
    → credit_in (sweep_clients now snapshot clients) later peer ≡ credit_in clients later peer
unfolding sweep_clients
credit-sweep_clients now later peer [] clients h ds p d = refl
credit-sweep_clients now later peer ((k, client) ∷ snapshot) clients h ds p d =
    elim (Bool-cases (is_idle client now)) [
      | inl idle ↦ rw idle (
          credit-sweep_clients now later peer snapshot (erase k clients) h ds.1
            (Present-erase k clients snapshot d ds.0 p.1) (erase-IsDistinct k clients d)
          ∙ credit-erase_idle clients client now later k peer d p.0 idle h)
      | inr busy ↦ rw busy (credit-sweep_clients now later peer snapshot clients h ds.1 p.1 d)
    ]

-- what a request may be, while the store is open for logins
pub data Event : Type 0 where
  login : Randomness → String → Event
  callback : (key browser_token : String) → Event
  failure : (key : String) → Event
  tick : Event

unfoldable pub step : Time → Event → OidcStateStore → OidcStateStore
step now (login r peer) s = (reserve s r now peer).0
step now (callback key browser_token) s = (take s key browser_token now).0
step now (failure key) s = discard s key
step now tick s = sweep s now

abbrev granted_if : {A : Type 0} → Bool → Option A → ℕ
granted_if same none = 0
granted_if same (some a) = if same then 1 else 0

-- the logins of an address that are let in: one or none
unfoldable pub granted : String → Time → Event → OidcStateStore → ℕ
granted p now (login r peer) s = granted_if (peer == p) (reserve s r now peer).1
granted p now _ s = 0

unfoldable pub total_granted : String → List (Time × Event) → OidcStateStore → ℕ
unfolding granted step
total_granted p [] s = 0
total_granted p ((now, e) ∷ events) s = granted p now e s + total_granted p events (step now e s)

-- times do not go back, from `start` to `end`
abbrev pub IsTimed : Time → List (Time × Event) → Time → Type 0
IsTimed start [] end = start ≤ end
IsTimed start ((now, e) ∷ events) end = (start ≤ now) × IsTimed now events end

timed_le :
    (start : Time) (events : List (Time × Event)) (end : Time)
    → IsTimed start events end
    → start ≤ end
timed_le start [] end h = h
timed_le start ((now, e) ∷ events) end h = omega (arith, h.0, timed_le now events end h.1)

sweep_clients-IsDistinct :
    (now : Time) (snapshot clients : Dict LoginBucket)
    → IsDistinct clients
    → IsDistinct (sweep_clients now snapshot clients)
unfolding sweep_clients
sweep_clients-IsDistinct now [] clients d = d
sweep_clients-IsDistinct now ((k, client) ∷ snapshot) clients d =
    sweep_clients-IsDistinct now snapshot (if is_idle client now then erase k clients else clients)
      (elim (Bool-cases (is_idle client now)) [
        | inl idle ↦ rw idle (erase-IsDistinct k clients d)
        | inr busy ↦ rw busy d
      ])

take_found_clients :
    (key browser_token : String) (now : Time) (s : OidcStateStore) (o : Option OidcFlow)
    → (take_found key browser_token now s o).0.clients ≡ s.clients
unfolding take_found remove
take_found_clients key browser_token now s none = refl
take_found_clients key browser_token now s (some flow) = ground arith

discard_found_clients :
    (key : String) (s : OidcStateStore) (o : Option OidcFlow)
    → (discard_found key s o).clients ≡ s.clients
unfolding discard_found remove
discard_found_clients key s none = refl
discard_found_clients key s (some flow) = refl

-- from one store to another, with some logins of the address let in: they are paid for, and no
-- credits come from elsewhere
record Costs (p : String) (now : Time) (s t : OidcStateStore) (n : ℕ) : Type 0 where
  distinct : IsDistinct t.clients
  paid :
      (later : Time)
      → now ≤ later
      → credit t later p + n * token ≤ credit s now p + (later - now) * oidc_login_rate

-- the clients are as they were
Costs-same :
    (p : String) (now : Time) (s t : OidcStateStore)
    → IsDistinct s.clients
    → t.clients ≡ s.clients
    → Costs p now s t 0
Costs-same p now s t d same = record {
  distinct = rw same d;
  paid = λ later h. rw same (omega (arith, credit_later s.clients now later p h));
}

login_by :
    (p : String) (now : Time) (r : Randomness) (peer : String) (s : OidcStateStore) (b : Bool)
    → refuses s now peer ≡ b
    → IsDistinct s.clients
    → let answer : OidcStateStore × Option (String × OidcState) = if b then (s, none) else (
      admit s r now peer (refilled_global s now) (refilled_client s now peer),
      some (r.key, new_state r now),
    ) in
      Costs p now s answer.0 (granted_if (peer == p) answer.1)
login_by p now r peer s true refused d = Costs-same p now s s d refl
login_by p now r peer s false admitted d =
    let b = refilled_client s now peer in
    let clients = insert peer (record b { tokens = b.tokens - token }) s.clients in
    let enough = (refuses-IsAdmissible s now peer admitted).locally in
    unfold admit refilled_client in
    record {
      distinct = insert-IsDistinct peer _ s.clients d;
      paid = λ later h. ground (
        arith,
        credit_later clients now later p h,
        credit-insert s.clients now peer p (unfold credit_in in enough),
      );
    }

swept_clients :
    (now : Time) (s : OidcStateStore)
    → (swept now s).clients ≡ sweep_clients now s.clients s.clients
unfolding swept
swept_clients now s = refl

tick_by :
    (p : String) (now : Time) (s : OidcStateStore) (b : Bool)
    → IsDistinct s.clients
    → Costs p now s (if b then record s { timer = false } else swept now s) 0
tick_by p now s true d = Costs-same p now s (record s { timer = false }) d refl
tick_by p now s false d = record {
  distinct = rw swept_clients (sweep_clients-IsDistinct now s.clients s.clients d);
  paid = λ later h. rw swept_clients (
      omega (
        arith,
        credit_later s.clients now later p h,
        credit-sweep_clients now later p s.clients s.clients h d (Present-refl s.clients d) d,
      ));
}

event-Costs :
    (p : String) (now : Time) (e : Event) (s : OidcStateStore)
    → IsDistinct s.clients
    → Costs p now s (step now e s) (granted p now e s)
unfolding step granted reserve take discard sweep
event-Costs p now (login r peer) s d = login_by p now r peer s (refuses s now peer) refl d
event-Costs p now (callback key browser_token) s d =
    Costs-same p now s _ d (take_found_clients key browser_token now s (lookup key s.flows))
event-Costs p now (failure key) s d =
    Costs-same p now s _ d (discard_found_clients key s (lookup key s.flows))
event-Costs p now tick s d = tick_by p now s s.closed d

total-Costs :
    (p : String) (events : List (Time × Event)) (s : OidcStateStore) (start end : Time)
    → IsDistinct s.clients
    → IsTimed start events end
    → total_granted p events s * token ≤ credit s start p + (end - start) * oidc_login_rate
unfolding total_granted
total-Costs p [] s start end d timed = omega arith
total-Costs p ((now, e) ∷ events) s start end d timed =
    let costs = event-Costs p now e s d in
    omega (
      arith,
      costs.paid now (omega arith),
      total-Costs p events (step now e s) now end costs.distinct timed.1,
      credit_later s.clients start now p timed.0,
      timed_le now events end timed.1,
    )

-- The rate limit holds over every interval: whatever logins, callbacks, failures and sweeps happen
-- between two times, at times that do not go back, an address is let in at most for its burst of
-- eight and for one login more in each 7.5 seconds; sweeping idle entries gives nothing away.
pub granted-le-rate :
    (p : String) (events : List (Time × Event)) (s : OidcStateStore) (start end : Time)
    → IsValid s
    → IsTimed start events end
    → total_granted p events s * token ≤ oidc_login_burst * token + (end - start) * oidc_login_rate
granted-le-rate p events s start end v timed = omega (
  arith,
  total-Costs p events s start end v.limited.distinct timed,
  credit-le-burst s.clients start p,
)
