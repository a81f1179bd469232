-- ===== src/Resulting/Emptied.antt =====
-- The rows of `bet_closure` after the loop of the resulting task
-- (src/cronjobs/workers/bet.resulting.service.ts).
use betting_service.Prelude.{◌==◌, ◌≡◌, refl, Bool, false, List, [], ◌∷◌, arith}
use betting_service.Table.{select_where, exists_where, delete_where, All}
use betting_service.Entity.Records.{BetClosure}
use betting_service.Store.{Store, System, ok, deletes_closure}
use betting_service.Store.Action.{steps, for_each, continue, refuse}
use betting_service.Store.Keeps.{Keeps}
use betting_service.Store.Loop.{for_each-establishes}
use betting_service.Closing.Returns.{close_won_bet-Total, close_won_bet-closures}
use betting_service.Resulting.{close_closure}
use betting_service.Resulting.Closures.{close_closure-Total}

exists-delete_none :
    {A : Type 0} (p : A → Bool) (xs : List A) → exists_where p (delete_where p xs) ≡ false
unfolding exists_where delete_where select_where
exists-delete_none p [] = refl
exists-delete_none p (x ∷ xs) = ground (arith, exists-delete_none p xs)

exists-delete :
    {A : Type 0} (p q : A → Bool) (xs : List A)
    → exists_where q xs ≡ false
    → exists_where q (delete_where p xs) ≡ false
unfolding exists_where delete_where select_where
exists-delete p q [] h = refl
exists-delete p q (x ∷ xs) h = ground (arith, exists-delete p q xs)

module _ {N : Type 0} (sys : System N) (runs : sys.fails deletes_closure ≡ false) where
  abbrev Gone : BetClosure → Store N → Type 0
  Gone row s = exists_where (λ c. c.bet_id == row.bet_id) s.closures ≡ false

  close_closure-closures :
      (row : BetClosure) (s : Store N)
      → (close_closure sys row s).1.closures ≡ delete_where (λ c. c.bet_id == row.bet_id) s.closures
  unfolding close_closure steps
  close_closure-closures row s =
      let (r, e) = (close_won_bet-Total sys row.bet_id).at s in
      rw (e, continue, runs, refuse, close_won_bet-closures sys row.bet_id s) refl

  close_closure-Gone : (row : BetClosure) (s : Store N) → Gone row (close_closure sys row s).1
  close_closure-Gone row s =
      rw (close_closure-closures row s)
        (exists-delete_none (λ c. c.bet_id == row.bet_id) s.closures)

  Keeps-Gone : (row other : BetClosure) → Keeps (Gone row) (close_closure sys other)
  Keeps-Gone row other = record {
    at = λ s h.
        rw (close_closure-closures other s) (
          exists-delete (λ c. c.bet_id == other.bet_id) (λ c. c.bet_id == row.bet_id) s.closures h);
  }

  close_closure-returns : (row : BetClosure) (s : Store N) → (close_closure sys row s).0 ≡ ok tt
  close_closure-returns row s = let (u, e) = (close_closure-Total sys row).at s in e

  -- If the DELETE of a closure runs, the loop of the resulting task leaves none of the closures that
  -- it was given, whatever else fails.
  pub close_closure-empties :
      (rows : List BetClosure) (s : Store N)
      → All (λ row. Gone row (for_each rows (close_closure sys) s).1) rows
  close_closure-empties rows s =
      for_each-establishes (close_closure sys) Gone close_closure-returns close_closure-Gone
        Keeps-Gone rows s
