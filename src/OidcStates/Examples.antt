-- ===== src/OidcStates/Examples.antt =====
-- Logins on a state store that begins empty.
use cert_vault.Prelude.{
  ◌+◌, ◌*◌, ◌-◌, ◌≤◌, ◌≡◌, ◌≢◌, ◌⊎◌, ◌↔◌, refl, false, none, some, List, [], ◌∷◌, arith, leb,
}
use cert_vault.Prelude.Dict.{lookup, insert}
use cert_vault.Database.{Time}
use cert_vault.OidcStates.{
  OidcStateStore, Randomness, no_states, new_state, reserve, refuses, admit, take, take_found,
  sweep, token, count_of, refilled_client, refilled_global, refill, oidc_login_rate,
  oidc_login_burst, oidc_state_lifetime, is_expired,
}
use cert_vault.OidcStates.Bounds.{IsValid}
use cert_vault.OidcStates.Invariant.{
  reserved, swept_at, Reach, here, next, Reach-IsValid, no_states-IsValid,
}
use cert_vault.OidcStates.Flows.{IsTakeable, take-take, take_iff, take-reserve}
use cert_vault.OidcStates.Rate.{
  Event, login, tick, callback, granted, step, total_granted, IsTimed, granted-le-rate,
}

abbrev first_random : Randomness
first_random = record { key = "k"; browser_token = "b"; nonce = "n"; verifier = "v" }

abbrev one_flow : OidcStateStore
one_flow = (reserve no_states first_random 5 "10.0.0.1").0

reserve_first :
    (reserve no_states first_random 5 "10.0.0.1").1 ≡ some ("k", new_state first_random 5)
unfolding reserve refuses lookup count_of refilled_client refilled_global refill
reserve_first = refl

one_step : Reach no_states one_flow
unfolding lookup
one_step = next here (reserved first_random 5 "10.0.0.1" refl)

Reach-IsValid_example : IsValid (sweep one_flow 700000000000)
Reach-IsValid_example = Reach-IsValid no_states-IsValid (next one_step (swept_at 700000000000))

take_first : (take one_flow "k" "b" 9).1 ≡ some (new_state first_random 5, false)
unfolding reserve refuses admit take take_found lookup insert count_of refilled_client
    refilled_global refill
take_first = refl

take-take_example : let t = (take one_flow "k" "b" 9).0 in take t "k" "b" 10 ≡ (t, none)
take-take_example =
    take-take one_flow "k" "b" "b" 9 10 (new_state first_random 5, false)
      (Reach-IsValid no_states-IsValid one_step) take_first

take_iff_example :
    (((take one_flow "k" "b" 9).1 ≡ some (new_state first_random 5, false)) ↔ (
      IsTakeable one_flow "k" "b" (new_state first_random 5)
      × (false ≡ is_expired (new_state first_random 5) 9)))
    × ((take one_flow "k" "b" 9 ≡ (one_flow, none)) ⊎ ((take one_flow "k" "b" 9).1 ≢ none))
take_iff_example = take_iff one_flow "k" "b" 9 (new_state first_random 5) false

take-reserve_example :
    (take one_flow "k" "b" 600000000005).1
    ≡ some (new_state first_random 5, leb (5 + oidc_state_lifetime) 600000000005)
take-reserve_example =
    take-reserve no_states first_random 5 600000000005 "10.0.0.1" "k" (new_state first_random 5)
      (λ e. cc) reserve_first

abbrev events : List (Time × Event)
events = (5, login first_random "10.0.0.1") ∷ (9, callback "k" "b") ∷ (60000000009, tick) ∷ []

granted_first : total_granted "10.0.0.1" events no_states ≡ 1
unfolding total_granted granted step reserve refuses admit lookup insert count_of refilled_client
    refilled_global refill
granted_first = refl

events-IsTimed : IsTimed 0 events 70000000000
events-IsTimed = (omega arith, (omega arith, (omega arith, omega arith)))

granted-le-rate_example :
    total_granted "10.0.0.1" events no_states * token
    ≤ oidc_login_burst * token + (70000000000 - 0) * oidc_login_rate
granted-le-rate_example =
    granted-le-rate "10.0.0.1" events no_states 0 70000000000 no_states-IsValid events-IsTimed
