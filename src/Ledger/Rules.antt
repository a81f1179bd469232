-- ===== src/Ledger/Rules.antt =====
-- The rules by which an action is shown to follow the ledger: whatever it does is a sequence of
-- steps of it.
use betting_service.Prelude.{
  ℕ, suc, ◌==◌, ◌≡◌, refl, sym, subst, ap, ◌∙◌, Bool, true, false, List, [], ◌∷◌, ◌++◌, map, ◌⊎◌,
  inl, inr, arith, Option, none, some, if◌then◌else◌, Bool-cases,
}
use betting_service.Table.{update_where}
use betting_service.Entity.Bet.{Bet}
use betting_service.Store.{
  Store, System, Payload, SettleBet, PlaceBonus, MtsBet, Result, ok, thrown,
}
use betting_service.Store.Action.{
  modify, Action, call_credit, call_debit, call_settle, call_place, call_submit, try_catch, recover,
  continue, ◌>>=◌,
}
use betting_service.Store.Keeps.{
  Leaves, Leaves-at, Keeps, Keeps-return, Keeps-throw, Keeps-get, Keeps-modify, Keeps-bind,
  Keeps-attempt, Keeps-try, Keeps-statement, Keeps-when, Keeps-if, Keeps-for_each,
}
use betting_service.Ledger.{Ledger, view, account, is_win, Steps, next, open_bet}

-- Every run of the action adds steps to those made before it.
abbrev pub Follows : {N A : Type 0} → Ledger N → Action N A → Type 0
Follows l m = Keeps (λ t. Steps l (view t)) m

module _ {N : Type 0} where
  -- An UPDATE of bets that leaves the columns of the ledger alone.
  map-update :
      (p : Bet N → Bool) (f : Bet N → Bet N)
      → ((b : Bet N) → account (f b) ≡ account b)
      → (bs : List (Bet N)) → map account (update_where p f bs) ≡ map account bs
  unfolding update_where
  map-update p f same [] = refl
  map-update p f same (b ∷ bs) = elim (Bool-cases (p b)) [
    | inl e ↦ rw (e, same b, map-update p f same bs) refl
    | inr e ↦ rw (e, map-update p f same bs) refl
  ]

  pub Steps-update :
      (l : Ledger N) (p : Bet N → Bool) (f : Bet N → Bet N) (s : Store N)
      → ((b : Bet N) → account (f b) ≡ account b)
      → Steps l (view s)
      → Steps l (view (record s { bets = update_where p f s.bets }))
  Steps-update l p f s same h =
      subst (λ xs. Steps l (record (view s) { accounts = xs })) (sym (map-update p f same s.bets)) h

  map-append_last :
      (bs : List (Bet N)) (b : Bet N)
      → map account (bs ++ b ∷ []) ≡ map account bs ++ account b ∷ []
  map-append_last [] b = refl
  map-append_last (c ∷ bs) b = ap (λ xs. account c ∷ xs) (map-append_last bs b)

  pub Steps-insert :
      (l : Ledger N) (b : Bet N) (s : Store N)
      → Steps l (view s)
      → Steps l (view (record s { bets = s.bets ++ b ∷ [] }))
  Steps-insert l b s h =
      subst (λ xs. Steps l (record (view s) { accounts = xs })) (sym (map-append_last s.bets b))
        (next h (open_bet (view s) (account b)))

  -- A write of other tables.
  pub Steps-same :
      (l : Ledger N) (f : Store N → Store N)
      → ((s : Store N) → view (f s) ≡ view s)
      → Follows l (modify f)
  unfolding modify
  Steps-same l f same = record { at = λ s h. subst (Steps l) (sym (same s)) h }

  -- A call that credits no winning.
  pub Follows-credit :
      (l : Ledger N) (sys : System N) (p : Payload N)
      → is_win p.subject ≡ false
      → Follows l (call_credit sys p)
  unfolding call_credit
  Follows-credit l sys p e = record { at = λ s h. rw e h }

  pub Follows-debit : (l : Ledger N) (sys : System N) (p : Payload N) → Follows l (call_debit sys p)
  unfolding call_debit
  Follows-debit l sys p = record { at = λ s h. h }

  pub Follows-settle :
      (l : Ledger N) (sys : System N) (q : SettleBet N) → Follows l (call_settle sys q)
  unfolding call_settle
  Follows-settle l sys q = record { at = λ s h. h }

  pub Follows-place :
      (l : Ledger N) (sys : System N) (q : PlaceBonus N) → Follows l (call_place sys q)
  unfolding call_place
  Follows-place l sys q = record { at = λ s h. h }

  pub Follows-submit :
      (l : Ledger N) (sys : System N) (q : MtsBet N) → Follows l (call_submit sys q)
  unfolding call_submit
  Follows-submit l sys q = record { at = λ s h. h }

abbrev pub Pays : {N : Type 0} → Ledger N → Ledger N → Type 0
Pays l m = (m ≡ l) ⊎ (m ≡ record l { paid = suc l.paid })

-- An action after which the ledger is the same, or has one credited winning more.
pub record PaysOnce {N A : Type 0} (m : Action N A) : Type 0 where
  pub at : (s : Store N) → Pays (view s) (view (m s).1)

module _ {N A : Type 0} where
  pub PaysOnce-silent : (m : Action N A) → Leaves view m → PaysOnce m
  PaysOnce-silent m h = record { at = λ s. inl (Leaves-at view m h s) }

  pub PaysOnce-try : (m k : Action N A) → PaysOnce m → Leaves view k → PaysOnce (try_catch m k)
  unfolding try_catch
  PaysOnce-try m k hm hk = record { at = λ s. let (r, t) = m s in recover_once s r t (hm.at s) }
    where
      recover_once :
          (s : Store N) (r : Result A) (t : Store N)
          → Pays (view s) (view t)
          → Pays (view s) (view (recover r k t).1)
      recover_once s (ok a) t h = h
      recover_once s thrown t (inl e) = inl (Leaves-at view k hk t ∙ e)
      recover_once s thrown t (inr e) = inr (Leaves-at view k hk t ∙ e)

  -- What leaves the ledger alone may stand before and after.
  pub PaysOnce-after :
      {B : Type 0} (m : Action N A) (k : A → Action N B)
      → Leaves view m
      → ((a : A) → PaysOnce (k a))
      → PaysOnce (m >>= k)
  unfolding ◌>>=◌
  PaysOnce-after m k hm hk = record {
    at = λ s. let (r, t) = m s in first s r t (Leaves-at view m hm s);
  }
    where
      first :
          (s : Store N) (r : Result A) (t : Store N)
          → view t ≡ view s
          → Pays (view s) (view (continue r k t).1)
      first s (ok a) t e = subst (λ l. Pays l (view (k a t).1)) e ((hk a).at t)
      first s thrown t e = inl e

  pub PaysOnce-before :
      {B : Type 0} (m : Action N A) (k : A → Action N B)
      → PaysOnce m
      → ((a : A) → Leaves view (k a))
      → PaysOnce (m >>= k)
  unfolding ◌>>=◌
  PaysOnce-before m k hm hk = record { at = λ s. let (r, t) = m s in second s r t (hm.at s) }
    where
      second :
          (s : Store N) (r : Result A) (t : Store N)
          → Pays (view s) (view t)
          → Pays (view s) (view (continue r k t).1)
      second s (ok a) t (inl e) = inl (Leaves-at view (k a) (hk a) t ∙ e)
      second s (ok a) t (inr e) = inr (Leaves-at view (k a) (hk a) t ∙ e)
      second s thrown t h = h

pub PaysOnce-credit : {N : Type 0} (sys : System N) (p : Payload N) → PaysOnce (call_credit sys p)
unfolding call_credit
PaysOnce-credit sys p = record {
  at = λ s. elim (Bool-cases (is_win p.subject)) [
    | inl e ↦ inr (rw e refl)
    | inr e ↦ inl (rw e refl)
  ];
}

pub PaysOnce-if :
    {N A : Type 0} (b : Bool) (m k : Action N A)
    → PaysOnce m
    → PaysOnce k
    → PaysOnce (if b then m else k)
PaysOnce-if true m k hm hk = hm
PaysOnce-if false m k hm hk = hk

pub Leaves-settle :
    {N : Type 0} (sys : System N) (q : SettleBet N) → Leaves view (call_settle sys q)
unfolding call_settle
Leaves-settle sys q c = record { at = λ s h. h }

pub ruleset paying = (
  Keeps-return, Keeps-throw, Keeps-get, PaysOnce-silent, PaysOnce-try, PaysOnce-after,
  PaysOnce-before, PaysOnce-credit, PaysOnce-if, Leaves-settle,
)

pub ruleset following = (
  Keeps-return, Keeps-throw, Keeps-get, Keeps-modify, Keeps-bind, Keeps-attempt, Keeps-try,
  Keeps-statement, Keeps-when, Keeps-if, Keeps-for_each, Steps-update, Steps-insert, Follows-credit,
  Follows-debit, Follows-settle, Follows-place, Follows-submit, refl,
)
