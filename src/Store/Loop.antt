-- ===== src/Store/Loop.antt =====
-- Loops whose turns all return, and loops whose first turn throws.
use betting_service.Prelude.{◌≡◌, refl, sym, subst, List, [], ◌∷◌}
use betting_service.Table.{All}
use betting_service.Store.{Store, ok, thrown}
use betting_service.Store.Action.{Action, ◌>>=◌, ◌>>◌, return, for_each, continue}
use betting_service.Store.Keeps.{Keeps, continue-return}

module _ {N A : Type 0} (body : A → Action N (Unit {0})) where
  -- A first turn that throws is the end of the loop, and of what follows it.
  pub for_each-throws :
      {B : Type 0} (b : B) (xs : List A) (x : A) (later : List A) (s : Store N)
      → xs ≡ x ∷ later
      → (body x s).0 ≡ thrown
      → (for_each xs body >> return b) s ≡ (thrown, (body x s).1)
  unfolding for_each ◌>>=◌
  for_each-throws b xs x later s e h = rw (e, for_each, h, continue)

  -- If each turn returns, and establishes for its item what no turn breaks, then after the loop it is
  -- true for every item.
  module _ (P : A → Store N → Type 0) (returns : (x : A) (s : Store N) → (body x s).0 ≡ ok tt)
      (establishes : (x : A) (s : Store N) → P x (body x s).1)
      (keeps : (x y : A) → Keeps (P x) (body y)) where
    loop_step :
        (x : A) (xs : List A) (s : Store N)
        → for_each (x ∷ xs) body s ≡ for_each xs body (body x s).1
    unfolding for_each ◌>>=◌
    loop_step x xs s = rw (returns x s, continue)

    for_each-keeps_one : (x : A) (xs : List A) (s : Store N) → P x s → P x (for_each xs body s).1
    unfolding for_each return
    for_each-keeps_one x [] s h = h
    for_each-keeps_one x (y ∷ xs) s h =
        rw (loop_step y xs s) (for_each-keeps_one x xs (body y s).1 ((keeps x y).at s h))

    pub for_each-establishes :
        (xs : List A) (s : Store N) → All (λ x. P x (for_each xs body s).1) xs
    for_each-establishes [] s = tt
    for_each-establishes (x ∷ xs) s =
        subst (λ r. All (λ y. P y r.1) (x ∷ xs)) (sym (loop_step x xs s))
          (
            for_each-keeps_one x xs (body x s).1 (establishes x s),
            for_each-establishes xs (body x s).1,
          )

  -- A first turn that returns.
  pub for_each-first :
      (x : A) (xs : List A) (s t : Store N)
      → body x s ≡ (ok tt, t)
      → for_each (x ∷ xs) body s ≡ for_each xs body t
  unfolding for_each ◌>>=◌
  for_each-first x xs s t e = rw (e, continue) refl

  -- A loop whose turns would all change nothing changes nothing.
  pub for_each-skip :
      (P : A → Store N → Type 0)
      → ((x : A) (s : Store N) → P x s → body x s ≡ (ok tt, s))
      → (xs : List A) (s : Store N) → All (λ x. P x s) xs
      → for_each xs body s ≡ (ok tt, s)
  unfolding for_each ◌>>=◌ return
  for_each-skip P skip [] s h = refl
  for_each-skip P skip (x ∷ xs) s h = rw (skip x s h.0) (for_each-skip P skip xs s h.1)

-- If doing it again changes nothing, then so with a value returned after it.
pub again-return :
    {N A : Type 0} (m : Action N (Unit {0})) (b : A) (s : Store N)
    → m (m s).1 ≡ (ok tt, (m s).1)
    → let p = m >> return b in p (p s).1 ≡ (ok b, (p s).1)
unfolding ◌>>=◌ return
again-return m b s h = rw (continue-return {A = Unit {0}} (m s).0 b (m s).1, h, continue)
