-- ===== src/Cashout/Tests.antt =====
-- Cash-out at the samples.
use betting_service.Prelude.{ℕ, ◌≡◌, ◌⊎◌, refl, ◌∷◌}
use betting_service.Int.{negsuc}
use betting_service.Table.{find_where, select_where, exists_where}
use betting_service.Entity.Bet.{Bet}
use betting_service.Store.{Store}
use betting_service.Closing.{settlement, close}
use betting_service.Cashout.{
  process_cashout, calculate_cashout, cashout_value, get_probability, is_match, is_reached,
}
use betting_service.Cashout.Offer.{Accepted, has_lost}
use betting_service.Cashout.Exclusive.{process_cashout-final}
use betting_service.Samples.{running, silent, store, open_bet, slip}

-- The bet 8 with one open slip at odds of 2.00.
abbrev open_store : Store ℕ
open_store = record store {
  slips = record slip { id = 80; bet_id = 8; won = negsuc 0 } ∷ store.slips;
}

abbrev offered : ℕ
offered = 50000

open_store-Accepted : Accepted running 8 offered open_bet open_store
unfolding has_lost find_where select_where exists_where calculate_cashout cashout_value
    get_probability is_match is_reached
open_store-Accepted = record { found = refl; is_pending = refl; none_lost = refl; is_price = refl }

process_cashout-final_example :
    let t = (process_cashout running 8 offered open_store).1 in
    (t ≡ open_store)
    ⊎ (((close settlement silent 8 t).1 ≡ t) × ((process_cashout silent 8 100 t).1 ≡ t))
process_cashout-final_example =
    process_cashout-final running silent settlement 8 offered 100 open_store
