-- ===== src/Listing/Wanted.antt =====
-- What a request to `findAll` of src/bets/bets.service.ts asks of a bet, and its SQL condition.
use betting_service.Prelude.{
  ℕ, zero, suc, ◌≡◌, ◌≤◌, ◌⊎◌, not, leb, str_eq, String, refl, Bool, true, false, Bool-cases, inl,
  inr, List, [], ◌∷◌, ◌++◌, arith, Option, none, some,
}
use betting_service.Int.{ℤ, pos, ◌=ℤ◌}
use betting_service.Entity.Bet.{Bet}
use betting_service.Listing.{
  where_of, matches, all_of, by_user, by_status, by_from, by_to, by_text, HistoryRequest,
  StatusFilter, any_status, settled, has_status,
}

abbrev pub InStatus : StatusFilter → ℤ → Type 0
InStatus any_status status = Unit
InStatus settled status = (status =ℤ pos 0) ≡ false
InStatus (has_status wanted) status = (status =ℤ wanted) ≡ true

abbrev pub Since : Option ℕ → ℕ → Type 0
Since none time = Unit
Since (some from) time = from ≤ time

abbrev pub Until : Option ℕ → ℕ → Type 0
Until none time = Unit
Until (some to) time = time ≤ to

-- What the request asks of a bet.
pub record Meets {N : Type 0} (q : HistoryRequest) (b : Bet N) : Type 0 where
  pub of_client : b.client_id ≡ q.client_id
  pub placed : b.info.is_booked ≡ 0
  pub of_user : (q.user_id ≡ 0) ⊎ (b.user_id ≡ q.user_id)
  pub in_status : InStatus q.status b.status
  pub since : Since q.from b.created
  pub until : Until q.to b.created
  pub of_code : (str_eq q.betslip_id "" ≡ true) ⊎ (str_eq b.betslip_id q.betslip_id ≡ true)
  pub of_name : (str_eq q.username "" ≡ true) ⊎ (str_eq b.username q.username ≡ true)

module _ {N : Type 0} where
  all_of-append :
      (ps qs : List (Bet N → Bool)) (b : Bet N)
      → all_of (ps ++ qs) b ≡ true
      → (all_of ps b ≡ true) × (all_of qs b ≡ true)
  unfolding all_of
  all_of-append [] qs b h = (refl, h)
  all_of-append (p ∷ ps) qs b h = elim (Bool-cases (p b)) [
    | inl e ↦ let (h1, h2) = all_of-append ps qs b (rw e at h) in (rw e h1, h2)
    | inr e ↦ absurd (cc (rw e at h))
  ]

  all_of-one : (p : Bet N → Bool) (b : Bet N) → all_of (p ∷ []) b ≡ true → p b ≡ true
  unfolding all_of
  all_of-one p b h = ground (arith, h)

  by_user-of :
      (user_id : ℕ) (b : Bet N)
      → all_of (by_user user_id) b ≡ true
      → (user_id ≡ 0) ⊎ (b.user_id ≡ user_id)
  unfolding all_of
  by_user-of zero b h = inl refl
  by_user-of (suc n) b h = inr (ground (arith, h))

  by_status-of :
      (f : StatusFilter) (b : Bet N) → all_of (by_status f) b ≡ true → InStatus f b.status
  by_status-of any_status b h = tt
  by_status-of settled b h =
      let e = all_of-one (λ c. not (c.status =ℤ pos 0)) b h in ground (arith, e)
  by_status-of (has_status x) b h = all_of-one (λ c. c.status =ℤ x) b h

  by_from-of : (f : Option ℕ) (b : Bet N) → all_of (by_from f) b ≡ true → Since f b.created
  by_from-of none b h = tt
  by_from-of (some x) b h = let e = all_of-one (λ c. leb x c.created) b h in ground (arith, e)

  by_to-of : (f : Option ℕ) (b : Bet N) → all_of (by_to f) b ≡ true → Until f b.created
  by_to-of none b h = tt
  by_to-of (some x) b h = let e = all_of-one (λ c. leb c.created x) b h in ground (arith, e)

  by_text-of :
      (column : Bet N → String) (text : String) (b : Bet N)
      → all_of (by_text column text) b ≡ true
      → (str_eq text "" ≡ true) ⊎ (str_eq (column b) text ≡ true)
  by_text-of column text b h = elim (Bool-cases (str_eq text "")) [
    | inl e ↦ inl e
    | inr e ↦ inr (all_of-one (λ c. str_eq (column c) text) b (rw e at h))
  ]

  Meets-conditions :
      (q : HistoryRequest) (b : Bet N)
      → b.info.is_booked ≡ 0
      → b.client_id ≡ q.client_id
      → all_of (where_of q) b ≡ true
      → Meets q b
  unfolding where_of
  Meets-conditions q b placed own rest =
      let (h1, name) = all_of-append _ (by_text (λ c. c.username) q.username) b rest in
      let (h2, code) = all_of-append _ (by_text (λ c. c.betslip_id) q.betslip_id) b h1 in
      let (h3, to) = all_of-append _ (by_to q.to) b h2 in
      let (h4, from) = all_of-append _ (by_from q.from) b h3 in
      let (user, status) = all_of-append (by_user q.user_id) (by_status q.status) b h4 in
      record {
        of_client = own;
        placed = placed;
        of_user = by_user-of q.user_id b user;
        in_status = by_status-of q.status b status;
        since = by_from-of q.from b from;
        until = by_to-of q.to b to;
        of_code = by_text-of (λ c. c.betslip_id) q.betslip_id b code;
        of_name = by_text-of (λ c. c.username) q.username b name;
      }

  pub matches-Meets : (q : HistoryRequest) (b : Bet N) → matches q b ≡ true → Meets q b
  unfolding matches
  matches-Meets q b h = elim (Bool-cases (all_of (where_of q) b)) [
    | inl e ↦ Meets-conditions q b (ground (arith, h)) (ground (arith, h)) e
    | inr e ↦ absurd (ground (arith, h, e))
  ]

  -- The other way round: what meets a request passes its conditions.
  append-all_of :
      (ps qs : List (Bet N → Bool)) (b : Bet N)
      → all_of ps b ≡ true
      → all_of qs b ≡ true
      → all_of (ps ++ qs) b ≡ true
  unfolding all_of
  append-all_of [] qs b h k = k
  append-all_of (p ∷ ps) qs b h k = elim (Bool-cases (p b)) [
    | inl e ↦ rw e (append-all_of ps qs b (rw e at h) k)
    | inr e ↦ absurd (cc (rw e at h))
  ]

  one-all_of : (p : Bet N → Bool) (b : Bet N) → p b ≡ true → all_of (p ∷ []) b ≡ true
  unfolding all_of
  one-all_of p b h = rw h refl

  of-by_user :
      (user_id : ℕ) (b : Bet N)
      → (user_id ≡ 0) ⊎ (b.user_id ≡ user_id)
      → all_of (by_user user_id) b ≡ true
  unfolding all_of
  of-by_user zero b h = refl
  of-by_user (suc n) b (inl h) = absurd (omega (arith, h))
  of-by_user (suc n) b (inr h) = ground (arith, h)

  of-by_status :
      (f : StatusFilter) (b : Bet N) → InStatus f b.status → all_of (by_status f) b ≡ true
  unfolding all_of
  of-by_status any_status b h = refl
  of-by_status settled b h = rw h refl
  of-by_status (has_status x) b h = rw h refl

  of-by_from : (f : Option ℕ) (b : Bet N) → Since f b.created → all_of (by_from f) b ≡ true
  unfolding all_of
  of-by_from none b h = refl
  of-by_from (some x) b h = ground (arith, h)

  of-by_to : (f : Option ℕ) (b : Bet N) → Until f b.created → all_of (by_to f) b ≡ true
  unfolding all_of
  of-by_to none b h = refl
  of-by_to (some x) b h = ground (arith, h)

  of-by_text :
      (column : Bet N → String) (text : String) (b : Bet N)
      → (str_eq text "" ≡ true) ⊎ (str_eq (column b) text ≡ true)
      → all_of (by_text column text) b ≡ true
  unfolding all_of
  of-by_text column text b h = elim (Bool-cases (str_eq text "")) [
    | inl e ↦ rw e refl
    | inr e ↦ elim h [
      | inl unset ↦ absurd (cc (e, unset))
      | inr same ↦ rw e (one-all_of (λ c. str_eq (column c) text) b same)
    ]
  ]

  conditions-Meets : (q : HistoryRequest) (b : Bet N) → Meets q b → all_of (where_of q) b ≡ true
  unfolding where_of
  conditions-Meets q b m =
      append-all_of _ _ b
        (append-all_of _ _ b
          (append-all_of _ _ b
            (append-all_of _ _ b
              (append-all_of _ _ b (of-by_user q.user_id b m.of_user)
                (of-by_status q.status b m.in_status))
              (of-by_from q.from b m.since))
            (of-by_to q.to b m.until))
          (of-by_text (λ c. c.betslip_id) q.betslip_id b m.of_code))
        (of-by_text (λ c. c.username) q.username b m.of_name)

  pub Meets-matches : (q : HistoryRequest) (b : Bet N) → Meets q b → matches q b ≡ true
  unfolding matches
  Meets-matches q b m =
      let all_conditions = conditions-Meets q b m in
      let placed = m.placed in let own = m.of_client in ground (arith, all_conditions, placed, own)
