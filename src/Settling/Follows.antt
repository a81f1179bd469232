-- ===== src/Settling/Follows.antt =====
-- The settlement of bets follows the ledger (src/cronjobs/workers/bet.settlement.service.ts).
use betting_service.Prelude.{
  ℕ, ◌≡◌, String, Bool, true, false, List, [], ◌∷◌, Option, none, some, inl, inr, Option-cases,
  arith,
}
use betting_service.Entity.Bet.{Bet}
use betting_service.Entity.Records.{Settlement, Setting}
use betting_service.Int.{ℤ}
use betting_service.Store.{Store, System}
use betting_service.Store.Keeps.{Keeps-modify, Keeps-return, Keeps-bind}
use betting_service.Ledger.{Ledger, view}
use betting_service.Ledger.Rules.{Follows, following, Steps-same}
use betting_service.Cron.Follows.{exclusively-Follows, write_cronjob-Follows}
use betting_service.Settling.Unsettled.{
  process_unsettled, lose_bet, process_all_unsettled, settle_unsettled, task_process_unsettled_bet,
}
use betting_service.Settling.Tasks.{
  process_settlement, process_settlements, task_process_bet_settlement,
}
use betting_service.Settling.{
  Tally, Verdict, CurrentSlip, write_recalculated, process_void, void_of, process_slips, refresh,
  conclude, write, result_bet, upsert_closure, settle_tally, create_bet_settlement, won, lost,
  pending,
}

module _ {N : Type 0} (l : Ledger N) (sys : System N) where
  write_recalculated-Follows :
      (setting : Option (Setting N)) (t : Tally N) (total_odd factor : N) (c : CurrentSlip N)
      → Follows l (write_recalculated sys setting t total_odd factor c)
  unfolding write_recalculated
  write_recalculated-Follows none t total_odd factor c = search following
  write_recalculated-Follows (some setting) t total_odd factor c = search following

  process_slips-Follows :
      (setting : Option (Setting N)) (ft_score : Option String) (t : Tally N)
      (cs : List (CurrentSlip N)) (total_odd : N) (has_void : Bool)
      → Follows l (process_slips sys setting ft_score t total_odd has_void cs)
  unfolding process_slips process_void
  process_slips-Follows setting ft_score t [] total_odd has_void = search following
  process_slips-Follows setting ft_score t (c ∷ cs) total_odd has_void =
      elim (Option-cases (void_of sys.floats c.void_factor)) [
        | inl e ↦
            rw (process_slips, e)
              (Keeps-bind _ _ (Keeps-modify _ (λ s h. h))
                (λ _. process_slips-Follows setting ft_score t cs total_odd has_void))
        | inr (factor, e) ↦
            rw (process_slips, e)
              (Keeps-bind _ _
                (Keeps-bind _ _ (Keeps-modify _ (λ s h. h))
                  (λ _. write_recalculated-Follows setting t total_odd factor c))
                (λ odds. process_slips-Follows setting ft_score t cs odds true))
      ]

  refresh-Follows : (has_void : Bool) (t : Tally N) → Follows l (refresh has_void t)
  unfolding refresh
  refresh-Follows true t = search following
  refresh-Follows false t = search following

  conclude-Follows :
      (t : Tally N) (outcome status verdict : ℤ) → Follows l (conclude sys t outcome status verdict)
  unfolding conclude
  conclude-Follows t outcome status verdict = search following

  write-Follows : (t : Tally N) (v : Verdict) → Follows l (write sys t v)
  unfolding write
  write-Follows t won = conclude-Follows t _ _ _
  write-Follows t lost = conclude-Follows t _ _ _
  write-Follows t pending = search following

  result_bet-Follows :
      (setting : Option (Setting N)) (ft_score : Option String) (t : Tally N)
      → Follows l (result_bet sys setting ft_score t)
  unfolding result_bet
  result_bet-Follows setting ft_score t =
      search (following, process_slips-Follows, refresh-Follows, write-Follows)

  upsert_closure-view : (id : ℕ) (s : Store N) → view (upsert_closure id s) ≡ view s
  unfolding upsert_closure
  upsert_closure-view id s = ground arith

  settle_tally-Follows : (st : Settlement N) (t : Tally N) → Follows l (settle_tally sys st t)
  unfolding settle_tally
  settle_tally-Follows st t =
      search (following, result_bet-Follows, Steps-same, upsert_closure-view)

  pub create_bet_settlement-Follows : (st : Settlement N) → Follows l (create_bet_settlement sys st)
  unfolding create_bet_settlement
  create_bet_settlement-Follows st = search (following, settle_tally-Follows)

  process_settlement-Follows : (row : Settlement N) → Follows l (process_settlement sys row)
  unfolding process_settlement
  process_settlement-Follows row = search (following, create_bet_settlement-Follows)

  pub task_process_bet_settlement-Follows : Follows l (task_process_bet_settlement sys)
  unfolding task_process_bet_settlement process_settlements
  task_process_bet_settlement-Follows =
      search (following, exclusively-Follows, process_settlement-Follows)

  lose_bet-Follows : (row : Bet N) → Follows l (lose_bet sys row)
  unfolding lose_bet
  lose_bet-Follows row = search following

  process_unsettled-Follows : (row : Bet N) → Follows l (process_unsettled sys row)
  unfolding process_unsettled
  process_unsettled-Follows row = search (following, lose_bet-Follows) depth 9

  process_all_unsettled-Follows : (rows : List (Bet N)) → Follows l (process_all_unsettled sys rows)
  unfolding process_all_unsettled
  process_all_unsettled-Follows [] = search following
  process_all_unsettled-Follows (row ∷ rows) =
      Keeps-bind _ _ (process_unsettled-Follows row)
        (λ starts. Keeps-bind _ _ (process_all_unsettled-Follows rows) (λ started. Keeps-return _))

  settle_unsettled-Follows : (running : Bool) → Follows l (settle_unsettled sys running)
  unfolding settle_unsettled
  settle_unsettled-Follows true = search following
  settle_unsettled-Follows false =
      search (following, process_all_unsettled-Follows, write_cronjob-Follows) depth 9

  pub task_process_unsettled_bet-Follows : Follows l (task_process_unsettled_bet sys)
  unfolding task_process_unsettled_bet
  task_process_unsettled_bet-Follows = search (following, settle_unsettled-Follows)
