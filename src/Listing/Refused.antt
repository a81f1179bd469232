-- ===== src/Listing/Refused.antt =====
-- When `findAll` of src/bets/bets.service.ts throws.
use betting_service.Prelude.{
  ℕ, zero, suc, ◌==◌, ◌≡◌, ◌⊎◌, refl, Bool, true, false, ◌&&◌, String, str_eq, List, [], ◌∷◌, ◌++◌,
  Option, none, some, Bool-cases, inl, inr, sym, arith,
}
use betting_service.Entity.Bet.{Bet}
use betting_service.Store.{Store, System, ok, thrown}
use betting_service.Listing.{
  HistoryRequest, StatusFilter, any_status, settled, has_status, where_of, by_user, by_status,
  by_from, by_to, by_text, find_all, find_with, response_of,
}

abbrev pub is_any : StatusFilter → Bool
is_any any_status = true
is_any f = false

abbrev pub is_unset : Option ℕ → Bool
is_unset none = true
is_unset (some n) = false

-- A request that only names the client and the page.
abbrev pub is_unfiltered : HistoryRequest → Bool
is_unfiltered q =
    (q.user_id == 0)
    && is_any q.status
    && is_unset q.from
    && is_unset q.to
    && str_eq q.betslip_id ""
    && str_eq q.username ""

abbrev is_empty : {N : Type 0} → List (Bet N → Bool) → Bool
is_empty [] = true
is_empty (p ∷ ps) = false

module _ (N : Type 0) where
  append-empty :
      (ps qs : List (Bet N → Bool)) (a b : Bool)
      → is_empty ps ≡ a
      → is_empty qs ≡ b
      → is_empty (ps ++ qs) ≡ a && b
  append-empty [] qs a b p q = λ i. p i && q i
  append-empty (x ∷ ps) qs a b p q = λ i. p i && b

  by_user-empty : (u : ℕ) → is_empty (by_user {N = N} u) ≡ (u == 0)
  by_user-empty zero = refl
  by_user-empty (suc u) = ground arith

  by_status-empty : (f : StatusFilter) → is_empty (by_status {N = N} f) ≡ is_any f
  by_status-empty any_status = refl
  by_status-empty settled = refl
  by_status-empty (has_status x) = refl

  by_from-empty : (f : Option ℕ) → is_empty (by_from {N = N} f) ≡ is_unset f
  by_from-empty none = refl
  by_from-empty (some x) = refl

  by_to-empty : (f : Option ℕ) → is_empty (by_to {N = N} f) ≡ is_unset f
  by_to-empty none = refl
  by_to-empty (some x) = refl

  by_text-empty :
      (column : Bet N → String) (text : String) → is_empty (by_text column text) ≡ str_eq text ""
  by_text-empty column text = elim (Bool-cases (str_eq text "")) [
    | inl e ↦ rw e refl
    | inr e ↦ rw e refl
  ]

  where_of-empty : (q : HistoryRequest) → is_empty (where_of {N = N} q) ≡ is_unfiltered q
  unfolding where_of
  where_of-empty q =
      append-empty _ _ _ _
        (append-empty _ _ _ _
          (append-empty _ _ _ _
            (append-empty _ _ _ _
              (append-empty _ _ _ _ (by_user-empty q.user_id) (by_status-empty q.status))
              (by_from-empty q.from))
            (by_to-empty q.to))
          (by_text-empty (λ b. b.betslip_id) q.betslip_id))
        (by_text-empty (λ b. b.username) q.username)

module _ {N : Type 0} where
  find_with-cases :
      (sys : System N) (q : HistoryRequest) (s : Store N) (ps : List (Bet N → Bool))
      → ((is_empty ps ≡ true) × (find_with sys q s ps ≡ thrown))
        ⊎ ((is_empty ps ≡ false) × (find_with sys q s ps ≡ ok (response_of sys q s)))
  unfolding find_with
  find_with-cases sys q s [] = inl (refl, refl)
  find_with-cases sys q s (p ∷ ps) = inr (refl, refl)

  -- Where the queries that are well formed run, `findAll` throws exactly if the request asks for nothing
  -- but a client and a page; every other request is answered.
  pub find_all-throws :
      (sys : System N) (q : HistoryRequest) (s : Store N)
      → ((is_unfiltered q ≡ true) × (find_all sys q s ≡ thrown))
        ⊎ ((is_unfiltered q ≡ false) × (find_all sys q s ≡ ok (response_of sys q s)))
  unfolding find_all
  find_all-throws sys q s = rw (sym (where_of-empty N q)) (find_with-cases sys q s (where_of q))
