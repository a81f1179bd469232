-- ===== src/Ledger/Laws.antt =====
-- What the steps of the ledger keep.
use betting_service.Prelude.{ℕ, ◌≡◌, ◌≤◌, sym, ap, ◌∙◌, false, List, [], ◌∷◌, ◌++◌, arith, length}
use betting_service.Ledger.{
  Ledger, Steps, here, next, Step, open_bet, record_win, pay_win, is_recorded,
}
use mathlib.Core.List.{append-nil, append_assoc}

-- No bet is recorded twice.
abbrev pub Once : List ℕ → Type 0
Once [] = Unit
Once (x ∷ xs) = (is_recorded x xs ≡ false) × Once xs

-- No bet has two winnings, and no more winnings are credited than are recorded.
abbrev pub Balanced : {N : Type 0} → Ledger N → Type 0
Balanced l = Once l.recorded × (l.paid ≤ length l.recorded)

-- The items that were there stay, and none comes before them.
abbrev pub Extends : {A : Type 0} → List A → List A → Type 0
Extends {A = A} xs ys = (new : List A) × (ys ≡ xs ++ new)

module _ {N : Type 0} where
  Step-Balanced : {l m : Ledger N} → Step l m → Balanced l → Balanced m
  Step-Balanced (open_bet l a) h = h
  Step-Balanced (record_win l id new) h = ((new, h.0), omega arith)
  Step-Balanced (pay_win l id new) h = ((new, h.0), omega arith)

  pub Steps-Balanced : {l m : Ledger N} → Steps l m → Balanced l → Balanced m
  Steps-Balanced here h = h
  Steps-Balanced (next st step) h = Step-Balanced step (Steps-Balanced st h)

  pub Steps-Extends : {l m : Ledger N} → Steps l m → Extends l.accounts m.accounts
  Steps-Extends {l = l} here = ([], sym (append-nil l.accounts))
  Steps-Extends {l = l} (next st (open_bet m a)) =
      let (new, e) = Steps-Extends st in
      (new ++ a ∷ [], ap (λ xs. xs ++ a ∷ []) e ∙ append_assoc l.accounts new (a ∷ []))
  Steps-Extends (next st (record_win m id h)) = Steps-Extends st
  Steps-Extends (next st (pay_win m id h)) = Steps-Extends st
