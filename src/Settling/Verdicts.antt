-- ===== src/Settling/Verdicts.antt =====
-- The verdict of `resultBet`.
use betting_service.Prelude.{
  ℕ, ◌≡◌, ◌≢◌, refl, ◌∙◌, Bool, true, false, ◌||◌, ◌==◌, List, [], ◌∷◌, Option, none, some, arith,
  String, Option-cases, inl, inr,
}
use betting_service.Table.{select_where, exists_where}
use betting_service.Table.Rows.{exists-update_same, select-exists}
use betting_service.Entity.Slip.{BetSlip}
use betting_service.Entity.Records.{Setting}
use betting_service.Store.{Store, Result, System, ok, thrown}
use betting_service.Store.Action.{steps, Action, continue, return, ◌>>=◌, ◌>>◌}
use betting_service.Store.Keeps.{
  Keeps, keeping, Keeps-bind, Keeps-return, Keeps-modify, Yields, Yields-return, Yields-bind,
}
use betting_service.Settling.Counts.{Recount, no_rows, recount_row-lost, is_zero}
use betting_service.Settling.{
  Tally, CurrentSlip, Verdict, process_slips, process_void, write_recalculated, void_of, recount,
  refresh, verdict_of, write, result_bet, with_recount, void_slip, complete_slip, in_settled,
  is_void, Floats,
}

module _ {N : Type 0} where
  -- Once the count of the lost slips is not 0, it is not 0 again.
  recount-lost :
      (bs : List (BetSlip N)) (r : Recount)
      → is_zero r.lost ≡ false
      → is_zero (recount bs r).lost ≡ false
  unfolding recount
  recount-lost [] r h = h
  recount-lost (b ∷ bs) r h = recount-lost bs _ (recount_row-lost b.status b.won r)

  recount_some : (bs : List (BetSlip N)) → bs ≢ [] → is_zero (recount bs no_rows).lost ≡ false
  unfolding recount
  recount_some [] h = absurd (h refl)
  recount_some (b ∷ bs) h = recount-lost bs _ (recount_row-lost b.status b.won no_rows)

  verdict-ne-won : (t : Tally N) → is_zero t.lost ≡ false → verdict_of t ≢ Verdict.won
  unfolding verdict_of
  verdict-ne-won t h e = ground arith

  void_of-none :
      (floats : Floats N) (factor : Option N)
      → void_of floats factor ≡ none
      → is_void floats factor ≡ false
  unfolding void_of is_void
  void_of-none floats none h = refl
  void_of-none floats (some factor) h = ground arith

  -- A slip of the bet is in the store.
  abbrev HasSlip : ℕ → Store N → Type 0
  HasSlip id s = exists_where (λ b. b.bet_id == id) s.slips ≡ true

  module _ (sys : System N) (setting : Option (Setting N)) (ft_score : Option String)
      (t : Tally N) where
    write_recalculated-HasSlip :
        (id : ℕ) (setting' : Option (Setting N)) (odds factor : N) (c : CurrentSlip N)
        → Keeps (HasSlip id) (write_recalculated sys setting' t odds factor c)
    unfolding write_recalculated
    write_recalculated-HasSlip id none odds factor c = search keeping
    write_recalculated-HasSlip id (some st) odds factor c = search keeping

    process_void-HasSlip :
        (id : ℕ) (odds factor : N) (c : CurrentSlip N)
        → Keeps (HasSlip id) (process_void sys setting ft_score t odds factor c)
    unfolding process_void
    process_void-HasSlip id odds factor c =
        Keeps-bind _ _
          (Keeps-modify _ λ s h.
            exists-update_same (λ b. b.bet_id == id) (in_settled c) (void_slip sys ft_score factor)
              (λ b. refl) s.slips
            ∙ h)
          (λ _. write_recalculated-HasSlip id setting odds factor c)

    process_slips-HasSlip :
        (id : ℕ) (odds : N) (has_void : Bool) (cs : List (CurrentSlip N))
        → Keeps (HasSlip id) (process_slips sys setting ft_score t odds has_void cs)
    unfolding process_slips
    process_slips-HasSlip id odds has_void [] = Keeps-return has_void
    process_slips-HasSlip id odds has_void (c ∷ cs) =
        elim (Option-cases (void_of sys.floats c.void_factor)) [
          | inl e ↦
              rw (e, process_slips)
                (Keeps-bind _ _
                  (Keeps-modify _ λ s h.
                    exists-update_same (λ b. b.bet_id == id) (in_settled c)
                      (complete_slip sys ft_score) (λ b. refl) s.slips
                    ∙ h)
                  (λ _. process_slips-HasSlip id odds has_void cs))
          | inr (factor, e) ↦
              rw (e, process_slips)
                (Keeps-bind _ _ (process_void-HasSlip id odds factor c)
                  (λ odds'. process_slips-HasSlip id odds' true cs))
        ]

    process_slips-void :
        (odds : N) (has_void : Bool) (cs : List (CurrentSlip N))
        → has_void || exists_where (λ c. is_void sys.floats c.void_factor) cs ≡ true
        → Yields (λ b. b ≡ true) (process_slips sys setting ft_score t odds has_void cs)
    unfolding process_slips exists_where
    process_slips-void odds has_void [] h = Yields-return has_void (ground arith)
    process_slips-void odds has_void (c ∷ cs) h =
        elim (Option-cases (void_of sys.floats c.void_factor)) [
          | inl e ↦
              rw (e, process_slips)
                (Yields-bind _ _ (λ _.
                  process_slips-void odds has_void cs
                    (ground (arith, void_of-none sys.floats c.void_factor e))))
          | inr (factor, e) ↦
              rw (e, process_slips)
                (Yields-bind _ _ (λ odds'. process_slips-void odds' true cs refl))
        ]

    -- The bet is written by its verdict, and that is returned.
    conclude_with : Tally N → Action N Verdict
    conclude_with c = write sys c (verdict_of c) >> return (verdict_of c)

    conclude_with-recount :
        (rows : List (BetSlip N)) (s : Store N)
        → rows ≢ []
        → (conclude_with (with_recount (recount rows no_rows) t) s).0 ≢ ok Verdict.won
    unfolding ◌>>◌ conclude_with
    conclude_with-recount rows s some_row e =
        let c = with_recount (recount rows no_rows) t in
        (Yields-bind (write sys c (verdict_of c)) (λ _. return (verdict_of c))
            (λ _.
              Yields-return {Q = λ v. v ≢ Verdict.won} (verdict_of c)
                (verdict-ne-won c (recount_some rows some_row)))).of
          s Verdict.won e refl

    after_slips-void :
        (r : Result Bool) (s : Store N)
        → ((b : Bool) → r ≡ ok b → b ≡ true)
        → HasSlip t.bet.id s
        → (continue r (λ has_void. refresh has_void t >>= conclude_with) s).0 ≢ ok Verdict.won
    unfolding refresh steps
    after_slips-void thrown s is_true has e = cc
    after_slips-void (ok true) s is_true has e =
        conclude_with-recount (select_where (λ b. b.bet_id == t.bet.id) s.slips) s
          (select-exists _ s.slips has) e
    after_slips-void (ok false) s is_true has e = cc (is_true false refl)

-- If one of the slips of the bet has a void factor and the bet has a slip in the store, `resultBet`
-- never ends with the verdict that the bet is won.
pub result_bet-void_never_won :
    {N : Type 0} (sys : System N) (setting : Option (Setting N)) (ft_score : Option String)
    (t : Tally N) (s : Store N)
    → exists_where (λ c. is_void sys.floats c.void_factor) t.slips ≡ true
    → HasSlip t.bet.id s
    → (result_bet sys setting ft_score t s).0 ≢ ok Verdict.won
unfolding result_bet ◌>>=◌ conclude_with
result_bet-void_never_won sys setting ft_score t s h has e =
    let slips = process_slips sys setting ft_score t t.bet.total_odd false t.slips in
    after_slips-void sys setting ft_score t (slips s).0 (slips s).1
      (λ b. (process_slips-void sys setting ft_score t t.bet.total_odd false t.slips h).of s b)
      ((process_slips-HasSlip sys setting ft_score t t.bet.id t.bet.total_odd false t.slips).at s
        has)
      e
