-- ===== src/Reports/Commission/Tests.antt =====
-- Commissions at the samples.
use betting_service.Prelude.{◌≡◌, refl, [], ◌∷◌, none, some}
use betting_service.Store.{ok}
use betting_service.Reports.Commission.{
  AgentProfile, commission_of, commissions_of, casino, sums_of, get_commissions, no_sums,
}
use betting_service.Samples.{hundredths, store, open_bet}

abbrev profile : AgentProfile
profile = record {
  user_id = 3;
  username = "agent";
  commission_name = "standard";
  commission_id = 1;
  users = open_bet.user_id ∷ [];
}

-- The casino report of an agent with a user fails.
casino_fails : get_commissions hundredths 0 100000 casino (ok (some (profile ∷ []))) store ≡ none
unfolding get_commissions commissions_of sums_of
casino_fails = refl

-- An agent without users has an item.
casino_empty :
    get_commissions hundredths 0 100000 casino
      (ok (some (record profile { users = [] } ∷ [])))
      store
    ≡ some (
        commission_of hundredths 0 100000
          (record profile { users = [] })
          (no_sums hundredths 0 100000)
        ∷ [])
unfolding get_commissions commissions_of sums_of commission_of
casino_empty = refl
