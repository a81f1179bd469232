-- ===== src/Store/Action.antt =====
-- Asynchronous functions as actions on the store. The state comes back after a throw too: no
-- handler opens a transaction.
use betting_service.Prelude.{Bool, true, false, List, [], ◌∷◌, Option, none, some}
use betting_service.Store.{
  Store, Result, ok, thrown, System, credit, debit, settle_bonus, Payload, SettleBet, BonusReply,
  Statement, PlaceBonus, place_bonus, MtsBet, submit,
}

abbrev pub Action : Type 0 → Type 0 → Type 0
Action N A = Store N → Result A × Store N

abbrev pub outcome : {A : Type 0} → Result A → Option A
outcome (ok a) = some a
outcome thrown = none

module _ {N : Type 0} where
  unfoldable pub return : {A : Type 0} → A → Action N A
  return a s = (ok a, s)

  unfoldable pub throw : {A : Type 0} → Action N A
  throw s = (thrown, s)

  unfoldable pub get : {A : Type 0} → (Store N → A) → Action N A
  get f s = (ok (f s), s)

  unfoldable pub modify : (Store N → Store N) → Action N (Unit {0})
  modify f s = (ok tt, f s)

  abbrev pub continue : {A B : Type 0} → Result A → (A → Action N B) → Action N B
  continue (ok a) f s = f a s
  continue thrown f s = (thrown, s)

  infixl 5 ◌>>=◌ ◌>>◌
  unfoldable pub ◌>>=◌ : {A B : Type 0} → Action N A → (A → Action N B) → Action N B
  ◌>>=◌ m f s = let (r, s') = m s in continue r f s'

  abbrev pub ◌>>◌ : {B : Type 0} → Action N (Unit {0}) → Action N B → Action N B
  m >> k = m >>= λ _. k

  -- `try { x = m } catch { return }`: nothing, if `m` throws
  unfoldable pub attempt : {A : Type 0} → Action N A → Action N (Option A)
  attempt m s = let (r, s') = m s in (ok (outcome r), s')

  abbrev pub recover : {A : Type 0} → Result A → Action N A → Action N A
  recover (ok a) h s = (ok a, s)
  recover thrown h s = h s

  -- `try { m } catch { h }`
  unfoldable pub try_catch : {A : Type 0} → Action N A → Action N A → Action N A
  try_catch m h s = let (r, s') = m s in recover r h s'

  -- `if (b) { m }`
  unfoldable pub when : Bool → Action N (Unit {0}) → Action N (Unit {0})
  when true m s = m s
  when false m s = (ok tt, s)

  -- `for (const x of xs) body(x)`
  unfoldable pub for_each : {A : Type 0} → List A → (A → Action N (Unit {0})) → Action N (Unit {0})
  for_each [] body = return tt
  for_each (x ∷ xs) body = body x >> for_each xs body

  abbrev pub refuse : {A : Type 0} → Bool → Action N A → Action N A
  refuse true m s = (thrown, s)
  refuse false m s = m s

  -- A statement that the database may refuse.
  unfoldable pub statement : {A : Type 0} → System N → Statement → Action N A → Action N A
  statement sys st m s = refuse (sys.fails st) m s

  -- `bonusService.settleBet`, `walletService.credit`, `walletService.debit`: the call is made, then
  -- its reply comes or it is rejected.
  unfoldable pub call_settle : System N → SettleBet N → Action N (BonusReply N)
  call_settle sys q s = (sys.on_settle s.sent q, record s { sent = settle_bonus q ∷ s.sent })

  unfoldable pub call_place : System N → PlaceBonus N → Action N (Unit {0})
  call_place sys q s = (sys.on_place s.sent q, record s { sent = place_bonus q ∷ s.sent })

  -- `amqpConnection.publish`
  unfoldable pub call_submit : System N → MtsBet N → Action N (Unit {0})
  call_submit sys q s = (sys.on_submit s.sent q, record s { sent = submit q ∷ s.sent })

  unfoldable pub call_credit : System N → Payload N → Action N (Option N)
  call_credit sys p s = (sys.on_credit s.sent p, record s { sent = credit p ∷ s.sent })

  unfoldable pub call_debit : System N → Payload N → Action N (Option N)
  call_debit sys p s = (sys.on_debit s.sent p, record s { sent = debit p ∷ s.sent })

-- Its line names all of the above, so that a proof which computes with a handler names this alone.
unfoldable pub steps : Unit {0}
unfolding return throw get modify ◌>>=◌ attempt try_catch when for_each statement call_settle
    call_place call_submit call_credit call_debit
steps = tt
