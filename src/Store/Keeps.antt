-- ===== src/Store/Keeps.antt =====
-- What an action keeps true of the store, whether it returns or throws: one rule for each way to
-- put actions together.
use betting_service.Prelude.{◌≡◌, refl, if◌then◌else◌, Bool, true, false, List, [], ◌∷◌, subst, sym}
use betting_service.Store.{
  Store, Result, ok, thrown, System, Statement, Event, credit, debit, settle_bonus, Payload,
  SettleBet, PlaceBonus, place_bonus, MtsBet, submit,
}
use betting_service.Store.Action.{
  Action, ◌>>=◌, attempt, try_catch, statement, when, for_each, return, throw, get, modify,
  call_credit, call_debit, call_settle, continue, recover, refuse, call_place, call_submit,
}

pub record Keeps {ℓ} {N A : Type 0} (P : Store N → Type ℓ) (m : Action N A) : Type ℓ where
  pub at : (s : Store N) → P s → P (m s).1

module _ {ℓ} {N : Type 0} {P : Store N → Type ℓ} where
  pub Keeps-return : {A : Type 0} (a : A) → Keeps P (return a)
  unfolding return
  Keeps-return a = record { at = λ s h. h }

  pub Keeps-throw : {A : Type 0} → Keeps P (throw {A = A})
  unfolding throw
  Keeps-throw = record { at = λ s h. h }

  pub Keeps-get : {A : Type 0} (f : Store N → A) → Keeps P (get f)
  unfolding get
  Keeps-get f = record { at = λ s h. h }

  pub Keeps-modify : (f : Store N → Store N) → ((s : Store N) → P s → P (f s)) → Keeps P (modify f)
  unfolding modify
  Keeps-modify f h = record { at = h }

  pub continue-Keeps :
      {A B : Type 0} (r : Result A) (k : A → Action N B) (t : Store N)
      → P t
      → ((a : A) → Keeps P (k a))
      → P (continue r k t).1
  continue-Keeps (ok a) k t h keep = (keep a).at t h
  continue-Keeps thrown k t h keep = h

  pub Keeps-bind :
      {A B : Type 0} (m : Action N A) (k : A → Action N B)
      → Keeps P m
      → ((a : A) → Keeps P (k a))
      → Keeps P (m >>= k)
  unfolding ◌>>=◌
  Keeps-bind m k hm hk = record {
    at = λ s h. let (r, t) = m s in continue-Keeps r k t (hm.at s h) hk;
  }

  pub Keeps-attempt : {A : Type 0} (m : Action N A) → Keeps P m → Keeps P (attempt m)
  unfolding attempt
  Keeps-attempt m hm = record { at = hm.at }

  recover-Keeps :
      {A : Type 0} (r : Result A) (k : Action N A) (t : Store N)
      → P t
      → Keeps P k
      → P (recover r k t).1
  recover-Keeps (ok a) k t h keep = h
  recover-Keeps thrown k t h keep = keep.at t h

  pub Keeps-try : {A : Type 0} (m k : Action N A) → Keeps P m → Keeps P k → Keeps P (try_catch m k)
  unfolding try_catch
  Keeps-try m k hm hk = record {
    at = λ s h. let (r, t) = m s in recover-Keeps r k t (hm.at s h) hk;
  }

  refuse-Keeps : {A : Type 0} (b : Bool) (m : Action N A) → Keeps P m → Keeps P (refuse b m)
  refuse-Keeps true m hm = record { at = λ s h. h }
  refuse-Keeps false m hm = record { at = hm.at }

  pub Keeps-statement :
      {A : Type 0} (sys : System N) (st : Statement) (m : Action N A)
      → Keeps P m
      → Keeps P (statement sys st m)
  unfolding statement
  Keeps-statement sys st m hm = record { at = (refuse-Keeps (sys.fails st) m hm).at }

  pub Keeps-when : (b : Bool) (m : Action N (Unit {0})) → Keeps P m → Keeps P (when b m)
  unfolding when
  Keeps-when true m hm = record { at = hm.at }
  Keeps-when false m hm = record { at = λ s h. h }

  pub Keeps-if :
      {A : Type 0} (b : Bool) (m k : Action N A)
      → Keeps P m
      → Keeps P k
      → Keeps P (if b then m else k)
  Keeps-if true m k hm hk = hm
  Keeps-if false m k hm hk = hk

  pub Keeps-for_each :
      {A : Type 0} (xs : List A) (body : A → Action N (Unit {0}))
      → ((x : A) → Keeps P (body x))
      → Keeps P (for_each xs body)
  unfolding for_each
  Keeps-for_each [] body hb = Keeps-return tt
  Keeps-for_each (x ∷ xs) body hb =
      Keeps-bind (body x) (λ _. for_each xs body) (hb x) (λ _. Keeps-for_each xs body hb)

-- What is true of the store whatever calls have been made.
abbrev pub IgnoresCalls {ℓ} : {N : Type 0} → (Store N → Type ℓ) → Type ℓ
IgnoresCalls {N = N} P = (s : Store N) (e : Event N) → P s → P (record s { sent = e ∷ s.sent })

module _ {ℓ} {N : Type 0} {P : Store N → Type ℓ} (ignores : IgnoresCalls P) (sys : System N) where
  pub Keeps-credit : (p : Payload N) → Keeps P (call_credit sys p)
  unfolding call_credit
  Keeps-credit p = record { at = λ s h. ignores s (credit p) h }

  pub Keeps-debit : (p : Payload N) → Keeps P (call_debit sys p)
  unfolding call_debit
  Keeps-debit p = record { at = λ s h. ignores s (debit p) h }

  pub Keeps-place : (q : PlaceBonus N) → Keeps P (call_place sys q)
  unfolding call_place
  Keeps-place q = record { at = λ s h. ignores s (place_bonus q) h }

  pub Keeps-submit : (q : MtsBet N) → Keeps P (call_submit sys q)
  unfolding call_submit
  Keeps-submit q = record { at = λ s h. ignores s (submit q) h }

  pub Keeps-settle : (q : SettleBet N) → Keeps P (call_settle sys q)
  unfolding call_settle
  Keeps-settle q = record { at = λ s h. ignores s (settle_bonus q) h }

pub ruleset keeping = (
  Keeps-return, Keeps-throw, Keeps-get, Keeps-modify, Keeps-bind, Keeps-attempt, Keeps-try,
  Keeps-statement, Keeps-when, Keeps-if, Keeps-for_each, Keeps-credit, Keeps-debit, Keeps-settle,
  Keeps-place, Keeps-submit,
)

-- An action that leaves a part of the store as it was.
abbrev pub Leaves {ℓ} : {N A : Type 0} {B : Type ℓ} → (Store N → B) → Action N A → Type ℓ
Leaves {B = B} f m = (c : B) → Keeps (λ t. f t ≡ c) m

pub Leaves-at {ℓ} :
    {N A : Type 0} {B : Type ℓ} (f : Store N → B) (m : Action N A)
    → Leaves f m
    → (s : Store N) → f (m s).1 ≡ f s
Leaves-at f m h s = (h (f s)).at s refl

-- What is true of a part that an action leaves alone stays true.
pub Keeps-part {ℓ} :
    {N A : Type 0} {B : Type ℓ} (Q : B → Type 0) (f : Store N → B) (m : Action N A)
    → Leaves f m
    → Keeps (λ t. Q (f t)) m
Keeps-part Q f m h = record { at = λ s q. subst Q (sym (Leaves-at f m h s)) q }

-- What holds after `m`, returned or thrown, and is kept by what follows, holds in the end.
pub bind_after {ℓ} :
    {N A B : Type 0} (P : Store N → Type ℓ) (m : Action N A) (k : A → Action N B) (s : Store N)
    → P (m s).1
    → ((a : A) → Keeps P (k a))
    → P ((m >>= k) s).1
unfolding ◌>>=◌
bind_after P m k s h keep = let (r, t) = m s in continue-Keeps r k t h keep

-- Returning a value after an action keeps the store that the action left.
pub continue-return :
    {N A B : Type 0} (r : Result A) (b : B) (t : Store N) → (continue r (λ _. return b) t).1 ≡ t
unfolding return
continue-return (ok a) b t = refl
continue-return thrown b t = refl

-- What is true of every value that an action returns.
pub record Yields {N A : Type 0} (Q : A → Type 0) (m : Action N A) : Type 0 where
  pub of : (s : Store N) (a : A) → (m s).0 ≡ ok a → Q a

module _ {N : Type 0} {B : Type 0} {Q : B → Type 0} where
  pub Yields-return : (b : B) → Q b → Yields {N = N} Q (return b)
  unfolding return
  Yields-return b q = record { of = λ s a e. subst Q (cc e) q }

  continue-Yields :
      {A : Type 0} (r : Result A) (k : A → Action N B) (t : Store N)
      → ((a : A) → Yields Q (k a))
      → (b : B) → (continue r k t).0 ≡ ok b
      → Q b
  continue-Yields (ok a) k t h b e = (h a).of t b e
  continue-Yields thrown k t h b e = cc

  pub Yields-bind :
      {A : Type 0} (m : Action N A) (k : A → Action N B)
      → ((a : A) → Yields Q (k a))
      → Yields Q (m >>= k)
  unfolding ◌>>=◌
  Yields-bind m k h = record { of = λ s b e. let (r, t) = m s in continue-Yields r k t h b e }
