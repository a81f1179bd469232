-- ===== src/Reports/Commission.antt =====
-- Commissions: `getCommissions` and `getCommissionReport` of src/bets/retail.service.ts, and
-- `getCommissionReport` of src/bets/casino-bet.service.ts and src/bets/virtual-bet.service.ts. A time is
-- a number; `from` and `to` are midnights.
pub mod Answers
mod Tests
use betting_service.Prelude.{
  ℕ, ◌==◌, leb, Bool, true, false, ◌&&◌, ◌||◌, String, List, [], ◌∷◌, length, Option, none, some,
}
use betting_service.Int.{◌=ℤ◌, bet_won, bet_lost}
use betting_service.Floats.{Floats}
use betting_service.Table.{select_where}
use betting_service.Entity.Bet.{Bet}
use betting_service.Entity.Games.{VirtualBet}
use betting_service.Store.{Store, Result, ok, thrown}
use betting_service.Reports.{total_winnings_of}
use betting_service.Reports.Games.{is_among, sum_by}

-- `provider`
pub data Provider : Type 0 where
  casino virtual sport : Provider

-- An agent of the reply of the identity service.
pub record AgentProfile : Type 0 where
  pub user_id : ℕ
  pub username : String
  pub commission_name : String
  pub commission_id : ℕ
  pub users : List ℕ

-- The sums of a commission report, where null is 0.
pub record CommissionSums (N : Type 0) : Type 0 where
  pub total_tickets : ℕ
  pub total_sales : N
  pub total_winnings : N
  pub total_commissions : N

-- An item of `commissions`.
pub record Commission (N : Type 0) : Type 0 where
  pub user_id : ℕ
  pub username : String
  pub profile : String
  pub profile_id : ℕ
  pub total_tickets : ℕ
  pub total_sales : N
  pub total_won : N
  pub net : N
  pub is_paid : ℕ
  pub commission : N
  pub profit : N

module _ {N : Type 0} (floats : Floats N) (from to : ℕ) where
  -- `res?.… || 0`
  abbrev pub no_sums : CommissionSums N
  no_sums = record {
    total_tickets = 0;
    total_sales = floats.zero_num;
    total_winnings = floats.zero_num;
    total_commissions = floats.zero_num;
  }

  abbrev pub or_zero : Option N → N
  or_zero none = floats.zero_num
  or_zero (some x) = x

  unfoldable pub is_commissioned : List ℕ → Bet N → Bool
  is_commissioned users b =
      is_among users b.user_id
      && leb from b.created
      && leb b.created to
      && ((b.status =ℤ bet_won) || (b.status =ℤ bet_lost))

  unfoldable pub sport_sums : Store N → List ℕ → CommissionSums N
  sport_sums s users =
      let rows = select_where (is_commissioned users) s.bets in
      record {
        total_tickets = length rows;
        total_sales = sum_by floats (λ b. b.stake) rows;
        total_winnings = or_zero (total_winnings_of floats s rows);
        total_commissions = sum_by floats (λ b. b.info.commission) rows;
      }

  unfoldable pub virtual_sums : Store N → List ℕ → CommissionSums N
  virtual_sums s users =
      let rows =
        select_where
          (λ b.
            is_among users b.user_id
            && leb from b.created_at
            && leb b.created_at to
            && ((b.status == 1) || (b.status == 2)))
          s.virtual_bets in
      record {
        total_tickets = length rows;
        total_sales = sum_by floats (λ b. b.stake) rows;
        total_winnings = sum_by floats (λ b. b.winnings) rows;
        total_commissions = sum_by floats (λ b. b.commission) rows;
      }

  -- For users of an agent who has some. The query of casino bets names a column, `comission`, that the
  -- table does not have: it is refused.
  abbrev pub sums_of_users : Provider → Store N → List ℕ → Result (CommissionSums N)
  sums_of_users casino s users = thrown
  sums_of_users virtual s users = ok (virtual_sums s users)
  sums_of_users sport s users = ok (sport_sums s users)

  unfoldable pub sums_of : Provider → Store N → List ℕ → Result (CommissionSums N)
  sums_of provider s [] = ok no_sums
  sums_of provider s (u ∷ us) = sums_of_users provider s (u ∷ us)

  unfoldable pub commission_of : AgentProfile → CommissionSums N → Commission N
  commission_of agent sums =
      let net = floats.sub sums.total_sales sums.total_winnings in
      record {
        user_id = agent.user_id;
        username = agent.username;
        profile = agent.commission_name;
        profile_id = agent.commission_id;
        total_tickets = sums.total_tickets;
        total_sales = sums.total_sales;
        total_won = sums.total_winnings;
        net = net;
        is_paid = 0;
        commission = sums.total_commissions;
        profit = floats.sub net sums.total_commissions;
      }

  -- The loop over the agents; `none` is a throw.
  unfoldable pub commissions_of :
      Provider → Store N → List AgentProfile → Option (List (Commission N))
  commissions_of provider s [] = some []
  commissions_of provider s (a ∷ agents) =
      let rest = commissions_of provider s agents in
      elim (sums_of provider s a.users) [
        | thrown ↦ none
        | ok sums ↦ elim rest [ none ↦ none | some cs ↦ some (commission_of a sums ∷ cs) ]
      ]

  -- `commissions` of the answer, from the reply of the identity service, which is none without success
  -- or data; the numbers of the current week and month stay 0. `none` is the answer 'Error while
  -- fetching commission'.
  unfoldable pub get_commissions :
      Provider
      → (identity : Result (Option (List AgentProfile))) → Store N
      → Option (List (Commission N))
  get_commissions provider thrown s = none
  get_commissions provider (ok none) s = some []
  get_commissions provider (ok (some agents)) s = commissions_of provider s agents
