-- ===== src/Retail/Tests.antt =====
-- The bets of an agent at the samples.
use betting_service.Prelude.{ℕ, ◌≡◌, ◌++◌, refl, [], ◌∷◌, map, take, drop, arith}
use betting_service.Table.{select_where, newest_first, insert_newest}
use betting_service.Listing.{any_status}
use betting_service.Reports.Games.{fetch_user_ids}
use betting_service.Retail.{
  AgentRequest, agent_bets, agent_rows, of_agent, bets_of_users, agent_tickets, agent_ticket,
}
use betting_service.Retail.Pages.{agent_pages, sorted_rows, agent_bets-pages}
use betting_service.Samples.{running, store, open_bet}

abbrev one_a_page : AgentRequest
one_a_page = record {
  client_id = open_bet.client_id;
  from = 0;
  to = 100000;
  status = any_status;
  betslip_id = "";
  page = 1;
  per_page = 1;
}

abbrev seller : ℕ
seller = open_bet.user_id

-- Three bets on pages of one: the second is on none.
second_missing : map (λ b. b.id) (agent_pages running seller [] one_a_page store 3) ≡ 7 ∷ 9 ∷ []
unfolding agent_bets fetch_user_ids bets_of_users agent_rows of_agent agent_tickets agent_ticket
    select_where newest_first insert_newest
second_missing = refl

agent_bets-pages_example :
    agent_pages running seller [] one_a_page store 3
    ≡ take 1 (sorted_rows running seller [] one_a_page store)
      ++ drop 2 (sorted_rows running seller [] one_a_page store)
unfolding agent_rows of_agent select_where
agent_bets-pages_example = agent_bets-pages running seller [] one_a_page store 2 refl (omega arith)
