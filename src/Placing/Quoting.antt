-- ===== src/Placing/Quoting.antt =====
-- The loop of `placeBet` over the selections of a request, and `getOdds`
-- (src/bets/bets.service.ts). The services that it asks are arguments.
pub mod Odds
use betting_service.Prelude.{
  ℕ, zero, suc, ◌==◌, String, Bool, true, false, not, ◌&&◌, str_eq, if◌then◌else◌, List, [], ◌∷◌,
  ◌++◌, Option, none, some,
}
use betting_service.Store.{Store, System, Result}
use betting_service.Store.Action.{Action, return, ◌>>=◌}
use betting_service.Cashout.{is_match, get_probability}

-- A selection of the request. A text that is missing is empty, but the specifier, which may be
-- undefined.
pub record Selection (N : Type 0) : Type 0 where
  pub event_name : String
  pub event_date : String
  pub selection_id : String
  pub event_type : String
  pub event_prefix : String
  pub producer_id : ℕ
  pub sport_id : ℕ
  pub event_id : ℕ
  pub match_id : ℕ
  pub market_id : ℕ
  pub market_name : String
  pub specifier : Option String
  pub outcome_name : String
  pub outcome_id : String
  pub tournament : String
  pub category : String
  pub sport : String
  pub odds : N
  pub live_type : String

pub record PlaceBetRequest (N : Type 0) : Type 0 where
  pub client_id : ℕ
  pub user_id : ℕ
  pub username : String
  pub stake : N
  pub source : Option String
  pub selections : Option (List (Selection N))
  pub bet_type : String
  pub event_type : String
  pub ip_address : String
  pub min_bonus : N
  pub max_bonus : N
  pub is_booking : ℕ
  pub use_bonus : Bool

-- `data` of the reply of the identity service.
pub record Validation (N : Type 0) : Type 0 where
  pub max_winning : N
  pub currency : String
  pub commission : N

-- GetOddsReply
pub record OddsReply (N : Type 0) : Type 0 where
  pub status_name : String
  pub active : ℕ
  pub odds : N

-- GetOddsRequest
pub record OddsRequest : Type 0 where
  pub event_type : String
  pub event_prefix : String
  pub event_id : ℕ
  pub producer_id : ℕ
  pub market_id : ℕ
  pub specifier : String
  pub outcome_id : String

-- The odds, outrights, identity and bonus services, the random code of the slip, and
-- `parseFloat(x.toFixed(2))`. A refusal of the identity or of the bonus service is `none`.
pub record Services (N : Type 0) : Type 0 where
  pub producer_status : ℕ → Result ℕ
  pub get_odds_status : OddsRequest → Result (OddsReply N)
  pub get_outrights_odds_status : OddsRequest → Result (OddsReply N)
  pub validate_bet : PlaceBetRequest N → (total_odds : N) → Result (Option (Validation N))
  pub validate_selection : PlaceBetRequest N → Result (Option ℕ)
  pub betslip_id : String
  pub round2 : N → N

-- What the caller gets; `suspended` names the event and the market.
pub data PlaceReply (N : Type 0) : Type 0 where
  missing_client missing_stake missing_source missing_selections : PlaceReply N
  missing_event_name missing_producer_id missing_sport_id : PlaceReply N
  missing_market_id missing_market_name missing_outcome_name : PlaceReply N
  missing_outcome_id missing_specifier missing_odds : PlaceReply N
  suspended : (event_name market_name : String) → PlaceReply N
  invalid bonus_refused not_saved : PlaceReply N
  placed : (betslip_id : String) → (stake possible_win total_odd : N) → PlaceReply N

-- A selection with its type and prefix filled in, its specifier, its odds of now and their
-- probability.
pub record Quote (N : Type 0) : Type 0 where
  pub selection : Selection N
  pub specifier : String
  pub odds : N
  pub probability : N

-- What the loop ends with.
pub data Reading (N : Type 0) : Type 0 where
  refused : PlaceReply N → Reading N
  quoted : List (Quote N) → (total probability : N) → Reading N

abbrev is_missing : Option String → Bool
is_missing none = true
is_missing (some text) = false

abbrev given : Option String → String
given none = ""
given (some text) = text

module _ {N : Type 0} where
  -- The reply of a service that is asked, or its error.
  unfoldable pub reply : {A : Type 0} → Result A → Action N A
  reply r s = (r, s)

  abbrev pub defaults : Selection N → Selection N
  defaults x = record x {
    event_type = if str_eq x.event_type "" then "match" else x.event_type;
    event_prefix = if str_eq x.event_prefix "" then "sr" else x.event_prefix;
  }

  -- The first field of a selection that is missing.
  unfoldable pub check_selection : System N → Selection N → Option (PlaceReply N)
  check_selection sys x =
      if str_eq x.event_name ""
      then some missing_event_name
      else if x.producer_id == 0
      then some missing_producer_id
      else if x.sport_id == 0
      then some missing_sport_id
      else if x.market_id == 0
      then some missing_market_id
      else if str_eq x.market_name ""
      then some missing_market_name
      else if str_eq x.outcome_name ""
      then some missing_outcome_name
      else if str_eq x.outcome_id ""
      then some missing_outcome_id
      else if is_missing x.specifier
      then some missing_specifier
      else if sys.floats.same x.odds sys.floats.zero_num
      then some missing_odds
      else none

  abbrev pub odds_request : Selection N → OddsRequest
  odds_request x = record {
    event_type = x.event_type;
    event_prefix = x.event_prefix;
    event_id = x.match_id;
    producer_id = x.producer_id;
    market_id = x.market_id;
    specifier = given x.specifier;
    outcome_id = x.outcome_id;
  }

  unfoldable pub active_odds : System N → OddsReply N → N
  active_odds sys r =
      if str_eq r.status_name "Active" && (r.active == 1) then r.odds else sys.floats.zero_num

  unfoldable pub odds_status : System N → Services N → OddsRequest → Action N N
  odds_status sys svc q = do
    status ←
        reply
          (if is_match q.event_type then svc.get_odds_status q else svc.get_outrights_odds_status q)
    return (active_odds sys status)

  -- The odds of now, or 0 if they are not offered. The status of producer 3 is not asked.
  unfoldable pub get_odds : System N → Services N → OddsRequest → Action N N
  get_odds sys svc q = if q.producer_id == 3 then odds_status sys svc q else (do
    status ← reply (svc.producer_status q.producer_id)
    if status == 0 then return sys.floats.zero_num else odds_status sys svc q)

  abbrev pub quote_of : System N → Selection N → (odds : N) → Quote N
  quote_of sys x odds = record {
    selection = x;
    specifier = given x.specifier;
    odds = odds;
    probability = get_probability sys.floats x.event_type odds;
  }

  -- `if (selectionProbability) overallProbability = overallProbability * selectionProbability`
  unfoldable pub times_probability : System N → (probability selection_probability : N) → N
  times_probability sys p q =
      if sys.floats.same q sys.floats.zero_num then p else sys.floats.mul p q

  -- The total is that of the odds of the request.
  unfoldable pub times_odds : System N → Services N → (total : N) → Selection N → N
  times_odds sys svc total x = sys.floats.mul total (svc.round2 x.odds)

  -- The loop, with the quotes so far.
  unfoldable pub read_selections :
      System N
      → Services N
      → List (Selection N)
      → List (Quote N)
      → (total probability : N) → Action N (Reading N)
  read_selections sys svc [] quotes total probability = return (quoted quotes total probability)
  read_selections sys svc (y ∷ ys) quotes total probability =
      let x = defaults y in
      elim (check_selection sys x) [
        | some r ↦ return (refused r)
        | none ↦ do
          odds ← get_odds sys svc (odds_request x)
          elim (sys.floats.same odds sys.floats.zero_num) [
            | true ↦ return (refused (suspended x.event_name x.market_name))
            | false ↦
                read_selections sys svc ys (quotes ++ quote_of sys x odds ∷ [])
                  (times_odds sys svc total x)
                  (times_probability sys probability (get_probability sys.floats x.event_type odds))
          ]
      ]
