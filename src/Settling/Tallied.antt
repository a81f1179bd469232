-- ===== src/Settling/Tallied.antt =====
-- What the counters of `createBetSettlement` count, and the verdict of `resultBet` from them
-- (src/cronjobs/workers/bet.settlement.service.ts).
use betting_service.Prelude.{
  ℕ, ◌+◌, ◌==◌, Bool, true, false, ◌&&◌, not, if◌then◌else◌, List, [], ◌∷◌, map, ◌≡◌, refl, arith,
}
use betting_service.Int.{◌=ℤ◌, status_not_lost_or_won, status_won}
use betting_service.Floats.{Floats}
use betting_service.Table.{exists_where, count_where}
use betting_service.Entity.Bet.{Bet}
use betting_service.Entity.Slip.{BetSlip}
use betting_service.Settling.Counts.{num}
use betting_service.Settling.{Tally, Verdict, start_tally, tally_slip, tally_slips, verdict_of}

abbrev one_if : Bool → ℕ
one_if true = 1
one_if false = 0

exists-count :
    {A : Type 0} (p : A → Bool) (xs : List A) → exists_where p xs ≡ not (count_where p xs == 0)
unfolding exists_where count_where
exists-count p [] = refl
exists-count p (x ∷ xs) = ground (arith, exists-count p xs)

module _ {N : Type 0} where
  -- The slips of a bet, by their results.
  abbrev won_slip : ℕ → BetSlip N → Bool
  won_slip id b = (id == b.bet_id) && (b.won =ℤ status_won)

  abbrev pending_slip : ℕ → BetSlip N → Bool
  pending_slip id b = (id == b.bet_id) && (b.won =ℤ status_not_lost_or_won)

  abbrev pub lost_slip : ℕ → BetSlip N → Bool
  lost_slip id b =
      (id == b.bet_id) && (not (b.won =ℤ status_not_lost_or_won) && not (b.won =ℤ status_won))

  -- A bet is lost if one of its slips is; else it is won if none is open and as many as the bet has
  -- selections are won; else it is open.
  pub expected : List (BetSlip N) → Bet N → Verdict
  expected bs b =
      if exists_where (lost_slip b.id) bs
      then Verdict.lost
      else (if not (exists_where (pending_slip b.id) bs)
            && (count_where (won_slip b.id) bs == b.total_bets)
          then Verdict.won
          else Verdict.pending)

  pub expected-lost :
      (bs : List (BetSlip N)) (b : Bet N)
      → exists_where (lost_slip b.id) bs ≡ true
      → expected bs b ≡ Verdict.lost
  unfolding expected
  expected-lost bs b h = rw h refl

  -- The counters of a row.
  abbrev Counted : Tally N → (id total w l p : ℕ) → Type 0
  Counted t id total w l p =
      (t.bet.id ≡ id)
      × (t.won ≡ num w)
      × (t.lost ≡ num l)
      × (t.pending ≡ num p)
      × (t.total_games ≡ num total)

  module _ (floats : Floats N) where
    abbrev tally_row : List (BetSlip N) → Tally N → Tally N
    tally_row [] t = t
    tally_row (b ∷ bs) t = tally_row bs (tally_slip floats b t)

    tally_slips-rows :
        (bs : List (BetSlip N)) (t : Tally N) (ts : List (Tally N))
        → tally_slips floats bs (t ∷ ts) ≡ tally_row bs t ∷ tally_slips floats bs ts
    unfolding tally_slips
    tally_slips-rows [] t ts = refl
    tally_slips-rows (b ∷ bs) t ts =
        tally_slips-rows bs (tally_slip floats b t) (map (tally_slip floats b) ts)

    tally_slips-none : (bs : List (BetSlip N)) → tally_slips floats bs [] ≡ []
    unfolding tally_slips
    tally_slips-none [] = refl
    tally_slips-none (b ∷ bs) = tally_slips-none bs

    tally_slip-Counted :
        (x : BetSlip N) (t : Tally N) (id total w l p : ℕ)
        → Counted t id total w l p
        → Counted
            (tally_slip floats x t)
            id
            total
            (one_if (won_slip id x) + w)
            (one_if (lost_slip id x) + l)
            (one_if (pending_slip id x) + p)
    unfolding tally_slip
    tally_slip-Counted x t id total w l p (same, cw, cl, cp, ct) =
        ground (arith, same, cw, cl, cp, ct)

    tally_row-Counted :
        (bs : List (BetSlip N)) (t : Tally N) (id total w l p : ℕ)
        → Counted t id total w l p
        → Counted
            (tally_row bs t)
            id
            total
            (count_where (won_slip id) bs + w)
            (count_where (lost_slip id) bs + l)
            (count_where (pending_slip id) bs + p)
    unfolding count_where
    tally_row-Counted [] t id total w l p (same, cw, cl, cp, ct) =
        ground (arith, same, cw, cl, cp, ct)
    tally_row-Counted (x ∷ bs) t id total w l p h =
        let ih =
          tally_row-Counted bs (tally_slip floats x t) id total _ _ _
            (tally_slip-Counted x t id total w l p h) in
        ground (arith, ih)

    tally_row-verdict :
        (bs : List (BetSlip N)) (b : Bet N)
        → verdict_of (tally_row bs (start_tally b)) ≡ expected bs b
    unfolding verdict_of expected
    tally_row-verdict bs b =
        let (same, cw, cl, cp, ct) =
          tally_row-Counted bs (start_tally b) b.id b.total_bets 0 0 0
            (refl, refl, refl, refl, refl) in
        rw (cw, cl, cp, ct, exists-count (lost_slip b.id) bs, exists-count (pending_slip b.id) bs)
          (ground arith)

    -- Before `resultBet` counts anew, which it does if a slip is void, the verdicts on the rows are those
    -- that their slips say: a bet is lost if one of its slips is; else won, if none is open and as many
    -- are won as the bet has selections; else open. Slips of other bets have no part in it.
    pub tally_slips-verdicts :
        (bs : List (BetSlip N)) (rows : List (Bet N))
        → map verdict_of (tally_slips floats bs (map start_tally rows)) ≡ map (expected bs) rows
    tally_slips-verdicts bs [] = rw (tally_slips-none bs) refl
    tally_slips-verdicts bs (b ∷ rows) =
        rw
          (
            tally_slips-rows bs (start_tally b) (map start_tally rows),
            tally_row-verdict bs b,
            tally_slips-verdicts bs rows,
          )
          refl
