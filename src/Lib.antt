-- ===== src/Lib.antt =====
-- The betting service: a model of its core, with what is proved of it.
--
-- The service keeps bets and their slips in a database. Messages from a feed settle the outcomes of
-- matches and outrights (src/consumers/workers/settlement.service.ts), cancel markets
-- (bet.cancel.service.ts) or roll a settlement back (settlement.rollback.service.ts); the betting risk
-- service (MTS) accepts or rejects a bet that was placed (mts.bet.accepted.service.ts,
-- mts.bet.cancelled.service.ts). Timed tasks (src/cronjobs/workers) conclude the bets on the settled
-- outcomes and pay the winning ones (bet.settlement.service.ts, bet.resulting.service.ts), and cancel
-- bets that the MTS left unanswered (mts.timeout.service.ts). Callers place and update bets
-- (src/bets/bets.service.ts), cash them out (cashout.service.ts) and play casino and virtual games
-- (casino-bet.service.ts, virtual-bet.service.ts). The parts interact through the rows of
-- the database and the calls to the wallet and bonus services.
--
-- Files:
--   Prelude, Int, Floats   shared names; the constants of src/constants.ts; the numbers of amounts
--   Table                  SELECT, UPDATE, DELETE and COUNT on the rows of a table
--   Entity                 the rows: src/entity
--   Store                  the database and the calls made; handlers as actions on them
--   Closing                closeBet of bet.resulting.service.ts and bet.settlement.service.ts
--   Resulting              taskProcessBetResulting, taskFixInvalidBetStatus, taskRequestSettlement
--   Cron                   the rows of `cronjob` that keep two runs of a task apart
--   Mts                    the replies of the MTS and its silence
--   Cancel                 processBetCancelMessage, processOutrightsBetCancelMessage
--   Rollback               createSettlementRollback, createOutrightSettlementRollback
--   Ingest                 createSettlement, createOutrightSettlement, betExists
--   Settling               createBetSettlement, resultBet, taskProcessBetSettlement,
--                          taskProcessUnSettledBet
--   Placing                placeBet, getOdds and findCoupon; the helpers that describe a bet
--                          (src/commons/helper.ts)
--   Updating               updateBet, the manual decisions on a bet or a selection
--   Cashout                calculateCashout, processCashout and the probabilities of a bet
--   History                the paging of findAll, paginateResponse, and the codes of a bet's state
--   Listing                findAll and findSingle: the list of a client's bets
--   Reports                getSportsTickets and deletePlayerData (src/bets/report.service.ts);
--                          Games: the lists of virtual and casino bets; Sales: salesReport and
--                          getTotalSales; Gaming: gamingActivity; Commission: getCommissions
--   Retail                 agentBets (src/bets/retail.service.ts)
--   Settings               src/settings/settings.service.ts
--   Casino, Virtual        casino and virtual bets
--   Ledger                 a specification: bets are opened, their winnings recorded and credited
--   Service                the methods, queues and timers as one machine (bets.controller.ts,
--                          consumer.service.ts, cronjob.service.ts)
--   Samples                concrete rows and services; each part's Tests run at them
--
-- A handler is an action: a function of the store that returns or throws, and gives the store back in
-- both cases, since no handler opens a transaction. A `System` holds what the service does not
-- implement: whether a statement fails, where the handler catches that and goes on; the answers of the
-- wallet and bonus services, which may depend on all earlier calls; the clock; and the arithmetic of
-- amounts and odds, which are JavaScript numbers and DECIMAL columns. What a DECIMAL column holds of a number that a
-- caller sends or that a handler computes for a new row (placeBet, processCashout, createSettings) is
-- the function `decimal` of it; elsewhere a row is taken to hold what is written. No property relies on
-- laws of that arithmetic, but that one listed amount is equal to itself where it is cashed out. A text
-- is compared exactly. A unique index refuses a second row, and the INSERT then throws. The loops run over
-- the finite lists of a message or of a query, so there is no fuel.
--
-- Interleavings are those of whole handlers, run one after the other. Identifiers are natural numbers.
-- The result of `getMatchInfo`, a request to the feed, is an argument.
--
-- The odds, outrights and identity services are arguments too, as are the random code of a slip, the
-- functions LIKE, DATE and MONTH of the database, and what an upsert of the settings writes. Nothing is
-- said of two handlers whose statements interleave.
--
-- The modules named Follows relate each handler to the ledger: what it does to the bets, the winnings and
-- the credits of winnings is a sequence of the ledger's steps, from every store and whatever fails.
-- Service joins them over sequences of requests. A `closeBet` that taskProcessUnSettledBet starts without
-- waiting for it is a request of its own, which may come at any time or never.
--
-- Not modelled: ticketsReport, which only calls one of three lists; of cash-out,
-- checkCashoutAvailability and two readers of odds, which nothing calls; the modules that wire the
-- parts; the generated clients of other services; what is logged.
pub mod Service
pub mod Ledger
pub mod Placing
pub mod Prelude
pub mod Int
pub mod Floats
pub mod Table
pub mod Entity
pub mod Store
pub mod Closing
pub mod Cron
pub mod Listing
pub mod Mts
pub mod Cancel
pub mod Rollback
pub mod Ingest
pub mod Settling
pub mod Cashout
pub mod History
pub mod Casino
pub mod Virtual
pub mod Updating
pub mod Settings
pub mod Reports
pub mod Retail
pub mod Resulting
pub mod Samples
