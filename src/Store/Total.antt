-- ===== src/Store/Total.antt =====
-- Actions that return from every store: they end, and never throw.
use betting_service.Prelude.{◌≡◌, refl, List, [], ◌∷◌}
use betting_service.Store.{Store, Result, ok, thrown}
use betting_service.Store.Action.{
  Action, return, attempt, try_catch, recover, continue, for_each, ◌>>=◌,
}

-- An action that returns, from every store.
pub record Total {N A : Type 0} (m : Action N A) : Type 0 where
  pub at : (s : Store N) → (a : A) × ((m s).0 ≡ ok a)

module _ {N : Type 0} where
  pub Total-return : {A : Type 0} (a : A) → Total {N = N} (return a)
  unfolding return
  Total-return a = record { at = λ s. (a, refl) }

  pub Total-attempt : {A : Type 0} (m : Action N A) → Total (attempt m)
  unfolding attempt
  Total-attempt m = record { at = λ s. (_, refl) }

  recover-Total :
      {A : Type 0} (r : Result A) (h : Action N A) (s : Store N)
      → Total h
      → (a : A) × ((recover r h s).0 ≡ ok a)
  recover-Total (ok a) h s t = (a, refl)
  recover-Total thrown h s t = t.at s

  pub Total-try : {A : Type 0} (m h : Action N A) → Total h → Total (try_catch m h)
  unfolding try_catch
  Total-try m h t = record { at = λ s. recover-Total (m s).0 h (m s).1 t }

  continue-Total :
      {A B : Type 0} (r : Result A) (k : A → Action N B) (s : Store N) (a : A)
      → r ≡ ok a
      → ((x : A) → Total (k x))
      → (b : B) × ((continue r k s).0 ≡ ok b)
  continue-Total (ok x) k s a e t = (t x).at s
  continue-Total thrown k s a e t = cc

  pub Total-bind :
      {A B : Type 0} (m : Action N A) (k : A → Action N B)
      → Total m
      → ((x : A) → Total (k x))
      → Total (m >>= k)
  unfolding ◌>>=◌
  Total-bind m k h t = record {
    at = λ s. let (a, e) = h.at s in continue-Total (m s).0 k (m s).1 a e t;
  }

  pub for_each-Total :
      {A : Type 0} (xs : List A) (body : A → Action N (Unit {0}))
      → ((x : A) → Total (body x))
      → Total (for_each xs body)
  unfolding for_each
  for_each-Total [] body t = Total-return tt
  for_each-Total (x ∷ xs) body t = Total-bind _ _ (t x) (λ _. for_each-Total xs body t)
