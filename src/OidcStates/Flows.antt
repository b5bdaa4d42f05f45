-- ===== src/OidcStates/Flows.antt =====
-- What `reserve` and `take` answer (backend/api/auth/oidc_state_store.go).
use cert_vault.Prelude.{
  ◌+◌, String, ◌≡◌, ◌≢◌, ◌↔◌, ◌⊎◌, refl, Bool, not, ◌||◌, Option, none, some, arith, leb, ◌==◌,
  eq_iff, text_eq_refl, text_ne, Bool-cases, inl, inr,
}
use cert_vault.Prelude.Dict.{lookup, IsDistinct, lookup-insert, lookup-erase}
use cert_vault.Database.{Time}
use cert_vault.OidcStates.{
  oidc_state_lifetime, OidcState, OidcFlow, OidcStateStore, Randomness, new_state, admit, refuses,
  reserve, remove, take, take_found, is_expired,
}
use cert_vault.OidcStates.Bounds.{IsValid}

take_found_gone :
    (key browser_token : String) (now : Time) (s : OidcStateStore) (o : Option OidcFlow)
    {answer : OidcState × Bool}
    → IsDistinct s.flows
    → (take_found key browser_token now s o).1 ≡ some answer
    → lookup key (take_found key browser_token now s o).0.flows ≡ none
unfolding take_found remove
take_found_gone key browser_token now s none d h = absurd (cc)
take_found_gone key browser_token now s (some flow) d h =
    elim (Bool-cases (browser_token == "" || not (flow.state.browser_token == browser_token))) [
      | inl wrong ↦ absurd (ground arith)
      | inr right ↦ rw right (ground (arith, lookup-erase key key s.flows d, text_eq_refl key))
    ]

-- A state can be taken once: after a `take` that answers, no `take` of that key answers, with
-- whatever browser token and at whatever time, and it changes nothing.
pub take-take :
    (s : OidcStateStore) (key browser_token browser_token' : String) (now now' : Time)
    (answer : OidcState × Bool)
    → IsValid s
    → (take s key browser_token now).1 ≡ some answer
    → let t = (take s key browser_token now).0 in take t key browser_token' now' ≡ (t, none)
unfolding take
take-take s key browser_token browser_token' now now' answer v h =
    let gone =
      take_found_gone key browser_token now s (lookup key s.flows) v.bounded.exact.distinct_flows
        h in
    rw gone (unfold take_found in refl)

-- the flow that a request may take
pub record IsTakeable (s : OidcStateStore) (key browser_token : String) (state : OidcState)
    : Type 0 where
  pub peer : String
  pub pending : lookup key s.flows ≡ some (record { state = state; peer = peer })
  pub bound : state.browser_token ≡ browser_token
  pub given : browser_token ≢ ""

take_found_iff :
    (key browser_token : String) (now : Time) (s : OidcStateStore) (o : Option OidcFlow)
    (state : OidcState) (expired : Bool)
    → lookup key s.flows ≡ o
    → ((take_found key browser_token now s o).1 ≡ some (state, expired))
      ↔ (IsTakeable s key browser_token state × (expired ≡ is_expired state now))
unfolding take_found
take_found_iff key browser_token now s none state expired e =
    ((λ h. absurd (cc)), (λ h. cc (h.0.pending, e)))
take_found_iff key browser_token now s (some flow) state expired e = (
  (λ h. elim (Bool-cases (browser_token == "" || not (flow.state.browser_token == browser_token))) [
    | inl wrong ↦ absurd (ground arith)
    | inr right ↦ (
      record {
        peer = flow.peer;
        pending = ground arith;
        bound = ground (arith, eq_iff flow.state.browser_token browser_token);
        given = λ empty. ground (arith, eq_iff browser_token "");
      },
      ground arith,
    )
  ]),
  (λ h.
      let (takeable, flag) = h in
      ground (
        arith,
        takeable.pending,
        takeable.bound,
        text_ne browser_token "" takeable.given,
        eq_iff flow.state.browser_token browser_token,
        flag,
      )),
)

unchanged :
    (key browser_token : String) (now : Time) (s : OidcStateStore) (o : Option OidcFlow)
    → (take_found key browser_token now s o ≡ (s, none))
      ⊎ ((take_found key browser_token now s o).1 ≢ none)
unfolding take_found
unchanged key browser_token now s none = inl refl
unchanged key browser_token now s (some flow) =
    elim (Bool-cases (browser_token == "" || not (flow.state.browser_token == browser_token))) [
      | inl wrong ↦ rw wrong (inl refl)
      | inr right ↦ rw right (inr (λ e. cc))
    ]

-- `take` answers with a state exactly if the key has a pending flow of that state, and the request
-- carries the flow's own, non-empty browser token; the flag tells whether the state's lifetime is
-- over. A `take` that does not answer changes nothing.
pub take_iff :
    (s : OidcStateStore) (key browser_token : String) (now : Time) (state : OidcState)
    (expired : Bool)
    → (((take s key browser_token now).1 ≡ some (state, expired))
        ↔ (IsTakeable s key browser_token state × (expired ≡ is_expired state now)))
      × ((take s key browser_token now ≡ (s, none)) ⊎ ((take s key browser_token now).1 ≢ none))
unfolding take
take_iff s key browser_token now state expired = (
  take_found_iff key browser_token now s (lookup key s.flows) state expired refl,
  unchanged key browser_token now s (lookup key s.flows),
)

-- A login that is admitted can be completed: with the browser token of its cookie `take` answers
-- with the state that `reserve` made, as expired from ten minutes after the reservation on.
pub take-reserve :
    (s : OidcStateStore) (r : Randomness) (now later : Time) (peer key : String) (state : OidcState)
    → r.browser_token ≢ ""
    → (reserve s r now peer).1 ≡ some (key, state)
    → (take (reserve s r now peer).0 key r.browser_token later).1
      ≡ some (state, leb (now + oidc_state_lifetime) later)
unfolding reserve
take-reserve s r now later peer key state given h = elim (Bool-cases (refuses s now peer)) [
  | inl refused ↦ absurd (ground arith)
  | inr admitted ↦
      let same_key : r.key ≡ key = ground arith in
      let same_state : new_state r now ≡ state = ground arith in
      rw (admitted, ← same_key, ← same_state)
        (unfold take take_found admit in
          ground (
            arith,
            lookup-insert r.key r.key (record { state = new_state r now; peer = peer }) s.flows,
            text_eq_refl r.key,
            text_eq_refl r.browser_token,
            text_ne r.browser_token "" given,
          ))
]
