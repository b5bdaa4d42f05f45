-- ===== src/OidcStates.antt =====
-- backend/api/auth/oidc_state_store.go: the pending OIDC logins and the login rate limits. The mutex
-- makes each method one step. What `time.Now()` and the random tokens give are arguments. The
-- floating-point tokens of a bucket are whole credits here, `token` of them to one, so that both
-- rates are whole numbers of credits per nanosecond; the rounding of float64 is left out.
pub mod Counting
pub mod Snapshot
pub mod Bounds
pub mod Invariant
pub mod Flows
pub mod Rate
mod Examples
use cert_vault.Prelude.{
  ℕ, ◌+◌, ◌-◌, ◌*◌, min, String, Bool, true, false, not, ◌&&◌, ◌||◌, Option, none, some, List, [],
  ◌∷◌, ltb, leb, eqb, ◌==◌, if◌then◌else◌, length,
}
use cert_vault.Prelude.Dict.{Dict, lookup, insert, erase}
use cert_vault.Database.{Time, minute}

abbrev pub oidc_max_states : ℕ
oidc_max_states = 1024

abbrev pub oidc_max_states_per_ip : ℕ
oidc_max_states_per_ip = 16

abbrev pub oidc_max_rate_clients : ℕ
oidc_max_rate_clients = 1024

abbrev pub oidc_state_lifetime : Time
oidc_state_lifetime = 600000000000  -- 10 * time.Minute

-- one login token, in credits
abbrev pub token : ℕ
token = 60000000000

-- 8 / 60 tokens a second
abbrev pub oidc_login_rate : ℕ
oidc_login_rate = 8

abbrev pub oidc_login_burst : ℕ
oidc_login_burst = 8

-- 8 tokens a second
abbrev pub oidc_global_login_rate : ℕ
oidc_global_login_rate = 480

abbrev pub oidc_global_login_burst : ℕ
oidc_global_login_burst = 32

pub record OidcState : Type 0 where
  pub browser_token : String
  pub nonce : String
  pub verifier : String
  pub at : Time

pub record OidcFlow : Type 0 where
  pub state : OidcState
  pub peer : String

-- `at` is none where the source's time is zero
pub record LoginBucket : Type 0 where
  pub tokens : ℕ
  pub at : Option Time

abbrev pub zero_bucket : LoginBucket
zero_bucket = record { tokens = 0; at = none }

unfoldable pub refill : LoginBucket → Time → ℕ → ℕ → LoginBucket
refill b now rate burst = elim b.at [
  | none ↦ record { tokens = burst * token; at = some now }
  | some t ↦ record { tokens = min (burst * token) (b.tokens + (now - t) * rate); at = some now }
]

pub record OidcStateStore : Type 0 where
  pub flows : Dict OidcFlow
  pub counts : Dict ℕ
  pub clients : Dict LoginBucket
  pub global : LoginBucket
  pub timer : Bool  -- a sweep is scheduled
  pub closed : Bool

-- a new key, and the texts of the new state
pub record Randomness : Type 0 where
  pub key : String
  pub browser_token : String
  pub nonce : String
  pub verifier : String

abbrev pub or_zero : Option ℕ → ℕ
or_zero none = 0
or_zero (some n) = n

abbrev pub or_zero_bucket : Option LoginBucket → LoginBucket
or_zero_bucket none = zero_bucket
or_zero_bucket (some b) = b

abbrev pub is_none {ℓ} : {A : Type ℓ} → Option A → Bool
is_none none = true
is_none (some a) = false

unfoldable pub count_of : String → Dict ℕ → ℕ
count_of peer counts = or_zero (lookup peer counts)

abbrev pub new_state : Randomness → Time → OidcState
new_state r now = record {
  browser_token = r.browser_token;
  nonce = r.nonce;
  verifier = r.verifier;
  at = now;
}

-- the writes of `reserve`, on the refilled buckets
unfoldable pub admit :
    OidcStateStore → Randomness → Time → String → LoginBucket → LoginBucket → OidcStateStore
admit s r now peer global client = record s {
  global = record global { tokens = global.tokens - token };
  clients = insert peer (record client { tokens = client.tokens - token }) s.clients;
  flows = insert r.key (record { state = new_state r now; peer = peer }) s.flows;
  counts = insert peer (count_of peer s.counts + 1) s.counts;
  timer = true;
}

unfoldable pub refilled_client : OidcStateStore → Time → String → LoginBucket
unfolding refill
refilled_client s now peer =
    refill (or_zero_bucket (lookup peer s.clients)) now oidc_login_rate oidc_login_burst

unfoldable pub refilled_global : OidcStateStore → Time → LoginBucket
unfolding refill
refilled_global s now = refill s.global now oidc_global_login_rate oidc_global_login_burst

-- the early returns of `reserve`, in their order
unfoldable pub refuses : OidcStateStore → Time → String → Bool
unfolding count_of refilled_client refilled_global
refuses s now peer =
    (s.closed
      || leb oidc_max_states (length s.flows)
      || leb oidc_max_states_per_ip (count_of peer s.counts))
    || (ltb (refilled_global s now).tokens token
        || (is_none (lookup peer s.clients) && leb oidc_max_rate_clients (length s.clients)
            || ltb (refilled_client s now peer).tokens token))

unfoldable pub reserve :
    OidcStateStore → Randomness → Time → String → OidcStateStore × Option (String × OidcState)
unfolding refuses admit refilled_client refilled_global
reserve s r now peer = if refuses s now peer then (s, none) else (
  admit s r now peer (refilled_global s now) (refilled_client s now peer),
  some (r.key, new_state r now),
)

-- `counts[peer]--`, and the deletion at zero
unfoldable pub lower : String → Dict ℕ → Dict ℕ
unfolding count_of
lower peer counts =
    if eqb (count_of peer counts - 1) 0
    then erase peer counts
    else insert peer (count_of peer counts - 1) counts

unfoldable pub remove : String → OidcFlow → OidcStateStore → OidcStateStore
remove key flow s = record s { flows = erase key s.flows; counts = lower flow.peer s.counts }

-- `!now.Before(at.Add(oidcStateLifetime))`
abbrev pub is_expired : OidcState → Time → Bool
is_expired state now = leb (state.at + oidc_state_lifetime) now

pub take_found :
    String
    → String
    → Time
    → OidcStateStore
    → Option OidcFlow
    → OidcStateStore × Option (OidcState × Bool)
take_found key browser_token now s none = (s, none)
take_found key browser_token now s (some flow) =
    if browser_token == "" || not (flow.state.browser_token == browser_token)
    then (s, none)
    else (remove key flow s, some (flow.state, is_expired flow.state now))

-- the state and whether it has expired, if there is one
unfoldable pub take :
    OidcStateStore → String → String → Time → OidcStateStore × Option (OidcState × Bool)
unfolding take_found
take s key browser_token now = take_found key browser_token now s (lookup key s.flows)

pub discard_found : String → OidcStateStore → Option OidcFlow → OidcStateStore
discard_found key s none = s
discard_found key s (some flow) = remove key flow s

unfoldable pub discard : OidcStateStore → String → OidcStateStore
unfolding discard_found
discard s key = discard_found key s (lookup key s.flows)

-- the two loops of `sweep`, over what the maps held when they began
pub sweep_flows : Time → Dict OidcFlow → OidcStateStore → OidcStateStore
sweep_flows now [] s = s
sweep_flows now ((key, flow) ∷ flows) s =
    sweep_flows now flows (if is_expired flow.state now then remove key flow s else s)

-- not used for a minute; a bucket of the map always has a time
abbrev pub is_idle : LoginBucket → Time → Bool
is_idle b now = elim b.at [ none ↦ true | some t ↦ leb (t + minute) now ]

pub sweep_clients : Time → Dict LoginBucket → Dict LoginBucket → Dict LoginBucket
sweep_clients now [] clients = clients
sweep_clients now ((peer, client) ∷ more) clients =
    sweep_clients now more (if is_idle client now then erase peer clients else clients)

abbrev pub is_nonempty {ℓ} : {A : Type ℓ} → List A → Bool
is_nonempty [] = false
is_nonempty (x ∷ xs) = true

pub swept : Time → OidcStateStore → OidcStateStore
unfolding sweep_flows sweep_clients
swept now s =
    let t = sweep_flows now s.flows s in
    let clients = sweep_clients now s.clients s.clients in
    record t { clients = clients; timer = is_nonempty t.flows || is_nonempty clients }

unfoldable pub sweep : OidcStateStore → Time → OidcStateStore
unfolding swept
sweep s now = if s.closed then record s { timer = false } else swept now s

unfoldable pub close : OidcStateStore → OidcStateStore
close s = record s { closed = true; timer = false; flows = []; counts = []; clients = [] }

abbrev pub no_states : OidcStateStore
no_states = record {
  flows = [];
  counts = [];
  clients = [];
  global = zero_bucket;
  timer = false;
  closed = false;
}
