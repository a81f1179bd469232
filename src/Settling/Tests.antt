-- ===== src/Settling/Tests.antt =====
-- The settlement of bets at the samples.
use betting_service.Prelude.{ℕ, ◌≢◌, refl, some, none, [], ◌∷◌, map, ◌≡◌}
use betting_service.Table.{exists_where}
use betting_service.Store.{ok}
use betting_service.Settling.{
  Tally, Verdict, start_tally, result_bet, is_void, verdict_of, tally_slips,
}
use betting_service.Settling.Tallied.{tally_slips-verdicts, expected}
use betting_service.Settling.Verdicts.{result_bet-void_never_won}
use betting_service.Samples.{running, store, won_bet, open_bet, slip, lost_slip, hundredths}

-- The bet 7 with its slip 70, which is void with the factor 1.
abbrev void_tally : Tally ℕ
void_tally = record (start_tally won_bet) {
  slips = record { id = 70; void_factor = some 100; odd = 200 } ∷ [];
}

result_bet-void_never_won_example :
    (result_bet running none (some "1:0") void_tally store).0 ≢ ok Verdict.won
unfolding exists_where is_void
result_bet-void_never_won_example =
    result_bet-void_never_won running none (some "1:0") void_tally store refl refl

tally_slips-verdicts_example :
    map verdict_of
      (tally_slips hundredths (slip ∷ lost_slip ∷ []) (map start_tally (won_bet ∷ open_bet ∷ [])))
    ≡ map (expected (slip ∷ lost_slip ∷ [])) (won_bet ∷ open_bet ∷ [])
tally_slips-verdicts_example =
    tally_slips-verdicts hundredths (slip ∷ lost_slip ∷ []) (won_bet ∷ open_bet ∷ [])
