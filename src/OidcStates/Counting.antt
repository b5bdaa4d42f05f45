-- ===== src/OidcStates/Counting.antt =====
-- How many flows a peer has, and how the maps count them (backend/api/auth/oidc_state_store.go).
use cert_vault.Prelude.{
  ℕ, ◌+◌, ◌-◌, String, ◌≡◌, ◌≢◌, refl, none, some, [], ◌∷◌, arith, eqb, ◌==◌, eq_iff, if◌then◌else◌,
  length, Bool-cases, inl, inr,
}
use cert_vault.Prelude.Dict.{
  Dict, lookup, insert, erase, IsDistinct, lookup-insert, lookup-erase, erase-IsDistinct,
  insert-IsDistinct,
}
use cert_vault.OidcStates.{OidcFlow, count_of, lower}

-- the flows of a peer
unfoldable pub flows_of : String → Dict OidcFlow → ℕ
flows_of peer [] = 0
flows_of peer ((key, flow) ∷ flows) = (if flow.peer == peer then 1 else 0) + flows_of peer flows

pub flows_of-insert :
    (peer key : String) (flow : OidcFlow) (flows : Dict OidcFlow)
    → lookup key flows ≡ none
    → flows_of peer (insert key flow flows)
      ≡ flows_of peer flows + (if flow.peer == peer then 1 else 0)
unfolding flows_of insert lookup
flows_of-insert peer key flow [] h = ground arith
flows_of-insert peer key flow ((k, f) ∷ flows) h =
    ground (arith, flows_of-insert peer key flow flows)

pub flows_of-erase :
    (peer key : String) (flow : OidcFlow) (flows : Dict OidcFlow)
    → lookup key flows ≡ some flow
    → flows_of peer (erase key flows) + (if flow.peer == peer then 1 else 0) ≡ flows_of peer flows
unfolding flows_of erase lookup
flows_of-erase peer key flow [] h = absurd (cc)
flows_of-erase peer key flow ((k, f) ∷ flows) h = elim (Bool-cases (k == key)) [
  | inl here ↦ let e : f ≡ flow = ground arith in rw (here, e) (omega arith)
  | inr later ↦ rw later (omega (arith, flows_of-erase peer key flow flows (rw later at h)))
]

pub length-insert_new {ℓ} :
    {V : Type ℓ} (key : String) (v : V) (m : Dict V)
    → lookup key m ≡ none
    → length (insert key v m) ≡ length m + 1
unfolding insert lookup
length-insert_new key v [] h = refl
length-insert_new key v ((k, w) ∷ m) h = ground (arith, length-insert_new key v m)

-- the counts are exact, and none of them is zero
pub record AreExact (flows : Dict OidcFlow) (counts : Dict ℕ) : Type 0 where
  pub distinct_flows : IsDistinct flows
  pub distinct_counts : IsDistinct counts
  pub counted : (peer : String) → count_of peer counts ≡ flows_of peer flows
  pub positive : (peer : String) → lookup peer counts ≢ some 0

pub AreExact-insert :
    (key peer : String) (flow : OidcFlow) (flows : Dict OidcFlow) (counts : Dict ℕ)
    → flow.peer ≡ peer
    → lookup key flows ≡ none
    → AreExact flows counts
    → AreExact (insert key flow flows) (insert peer (count_of peer counts + 1) counts)
unfolding count_of
AreExact-insert key peer flow flows counts own fresh x = record {
  distinct_flows = insert-IsDistinct key flow flows x.distinct_flows;
  distinct_counts = insert-IsDistinct peer _ counts x.distinct_counts;
  counted = λ p. ground (
    arith,
    lookup-insert peer p (count_of peer counts + 1) counts,
    flows_of-insert p key flow flows fresh,
    x.counted p,
    x.counted peer,
    eq_iff peer p,
    eq_iff flow.peer p,
  );
  positive =
      λ p e. ground (arith, lookup-insert peer p (count_of peer counts + 1) counts, x.positive p);
}

lookup-lower :
    (peer p : String) (counts : Dict ℕ)
    → IsDistinct counts
    → lookup p (lower peer counts) ≡ (
        if peer == p
        then (if eqb (count_of peer counts - 1) 0 then none else some (count_of peer counts - 1))
        else lookup p counts)
unfolding lower
lookup-lower peer p counts d =
    ground
      (arith, lookup-erase peer p counts d, lookup-insert peer p (count_of peer counts - 1) counts)

lower-IsDistinct :
    (peer : String) (counts : Dict ℕ) → IsDistinct counts → IsDistinct (lower peer counts)
unfolding lower
lower-IsDistinct peer counts d = elim (Bool-cases (eqb (count_of peer counts - 1) 0)) [
  | inl last ↦ rw last (erase-IsDistinct peer counts d)
  | inr more ↦ rw more (insert-IsDistinct peer _ counts d)
]

pub AreExact-erase :
    (key : String) (flow : OidcFlow) (flows : Dict OidcFlow) (counts : Dict ℕ)
    → lookup key flows ≡ some flow
    → AreExact flows counts
    → AreExact (erase key flows) (lower flow.peer counts)
unfolding count_of
AreExact-erase key flow flows counts found x = record {
  distinct_flows = erase-IsDistinct key flows x.distinct_flows;
  distinct_counts = lower-IsDistinct flow.peer counts x.distinct_counts;
  counted = λ p. ground (
    arith,
    lookup-lower flow.peer p counts x.distinct_counts,
    flows_of-erase p key flow flows found,
    x.counted p,
    x.counted flow.peer,
    eq_iff flow.peer p,
  );
  positive = λ p e.
      ground (
        arith,
        lookup-lower flow.peer p counts x.distinct_counts,
        x.positive p,
        eq_iff flow.peer p,
      );
}
