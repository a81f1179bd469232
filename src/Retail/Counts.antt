-- ===== src/Retail/Counts.antt =====
-- The numbers of won and of running bets of `agentBets` of src/bets/retail.service.ts.
use betting_service.Prelude.{ℕ, ◌≡◌, refl, Bool, false, ◌&&◌, not, List, [], ◌∷◌, arith}
use betting_service.Int.{ℤ, ◌=ℤ◌, bet_won, bet_pending}
use betting_service.Table.{All, count_where}
use betting_service.Entity.Bet.{Bet}
use betting_service.Store.{Store, System}
use betting_service.Listing.{any_status, settled, has_status}
use betting_service.Retail.{AgentRequest, bets_of_users, of_agent, in_status, runs_in}

never : (x : ℤ) → (not (x =ℤ bet_pending) && (x =ℤ bet_pending)) ≡ false
never x = ground arith

module _ {N : Type 0} where
  -- The result of a bet is never the status of a won bet, which is another code.
  abbrev pub NotStatus : Bet N → Type 0
  NotStatus b = (b.won =ℤ bet_won) ≡ false

  count-missing :
      (p r : Bet N → Bool) (bs : List (Bet N))
      → All (λ b. r b ≡ false) bs
      → count_where (λ b. p b && r b) bs ≡ 0
  unfolding count_where
  count-missing p r [] h = refl
  count-missing p r (b ∷ bs) h = ground (arith, h.0, count-missing p r bs h.1)

  never_settled : (bs : List (Bet N)) → All (λ b. runs_in settled b.status ≡ false) bs
  never_settled [] = tt
  never_settled (b ∷ bs) = (never b.status, never_settled bs)

  -- Where no result of a bet is the code 2, `agentBets` counts no bet as won, whatever has been won;
  -- a filter on one status leaves the number of running bets as it is without one, and the filter
  -- 'settled' makes it 0.
  pub agent_bets-counts :
      (sys : System N) (u : ℕ) (us : List ℕ) (q : AgentRequest) (x : ℤ) (s : Store N)
      → All NotStatus s.bets
      → ((bets_of_users sys q s (u ∷ us)).total_won_no ≡ 0)
        × ((bets_of_users sys (record q { status = has_status x }) s (u ∷ us)).total_running_no
            ≡ (bets_of_users sys (record q { status = any_status }) s (u ∷ us)).total_running_no)
        × ((bets_of_users sys (record q { status = settled }) s (u ∷ us)).total_running_no ≡ 0)
  unfolding bets_of_users of_agent
  agent_bets-counts sys u us q x s valid = (
    count-missing (λ b. of_agent (u ∷ us) q b && in_status q.status b.status)
        (λ b. b.won =ℤ bet_won) s.bets valid,
    refl,
    count-missing (of_agent (u ∷ us) q) (λ b. runs_in settled b.status) s.bets
        (never_settled s.bets),
  )
