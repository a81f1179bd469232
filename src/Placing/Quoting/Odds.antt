-- ===== src/Placing/Quoting/Odds.antt =====
-- What the loop over the selections of a request ends with (src/bets/bets.service.ts).
use betting_service.Prelude.{
  ◌≡◌, refl, sym, ap, ◌∙◌, List, [], ◌∷◌, ◌++◌, map, false, inl, inr, Bool-cases, Option-cases,
}
use betting_service.Table.{All}
use betting_service.Table.Rows.{All-append}
use betting_service.Store.{Store, System, Result, ok}
use betting_service.Store.Keeps.{
  Leaves-at, Keeps, Keeps-if, Keeps-bind, Keeps-return, Yields, Yields-return, Yields-bind,
}
use betting_service.Placing.Quoting.{
  OddsRequest, Selection, Services, Quote, Reading, quoted, refused, read_selections,
  check_selection, get_odds, odds_status, reply, defaults, times_odds, quote_of,
}
use mathlib.Core.List.{append-nil}

-- An item at the end of the first list, or at the start of the second.
map-append_one {ℓ κ} :
    {A : Type ℓ} {B : Type κ} (f : A → B) (xs : List A) (y : A) (zs : List B)
    → map f (xs ++ y ∷ []) ++ zs ≡ map f xs ++ f y ∷ zs
map-append_one f [] y zs = refl
map-append_one f (x ∷ xs) y zs = ap (λ l. f x ∷ l) (map-append_one f xs y zs)

module _ {N : Type 0} (sys : System N) (svc : Services N) where
  -- The product of the odds of a request, each at two decimals, without the odds of the services.
  abbrev pub product_of : N → List (Selection N) → N
  product_of total [] = total
  product_of total (x ∷ xs) = product_of (sys.floats.mul total (svc.round2 x.odds)) xs

  abbrev pub Offered : List (Quote N) → Type 0
  Offered = All (λ q. sys.floats.same q.odds sys.floats.zero_num ≡ false)

  -- The quotes are those of the selections, at odds that are not 0; the total is that of the request.
  abbrev pub Reads : List (Selection N) → List (Quote N) → N → Reading N → Type 0
  Reads selections quotes total (refused r) = Unit
  Reads selections quotes total (quoted qs t p) =
      (t ≡ product_of total selections)
      × (map (λ q. q.selection) qs ≡ map (λ q. q.selection) quotes ++ map defaults selections)
      × Offered qs

  Reads-first :
      (y : Selection N) (ys : List (Selection N)) (quotes : List (Quote N)) (total odds : N)
      (r : Reading N)
      → Reads ys (quotes ++ quote_of sys (defaults y) odds ∷ []) (times_odds sys svc total y) r
      → Reads (y ∷ ys) quotes total r
  unfolding times_odds
  Reads-first y ys quotes total odds (refused reason) h = tt
  Reads-first y ys quotes total odds (quoted qs t p) (sum, same, offered) =
      (sum, same ∙ map-append_one (λ q. q.selection) quotes _ (map defaults ys), offered)

  read_selections-Yields :
      (selections : List (Selection N)) (quotes : List (Quote N)) (total p : N)
      → Offered quotes
      → Yields (Reads selections quotes total) (read_selections sys svc selections quotes total p)
  unfolding read_selections times_odds
  read_selections-Yields [] quotes total p h = Yields-return _ (refl, sym (append-nil _), h)
  read_selections-Yields (y ∷ ys) quotes total p h =
      elim (Option-cases (check_selection sys (defaults y))) [
        | inr (r, e) ↦ rw (read_selections, e) (Yields-return _ tt)
        | inl e ↦
            rw (read_selections, e)
              (Yields-bind _ _ λ odds.
                elim (Bool-cases (sys.floats.same odds sys.floats.zero_num)) [
                  | inl z ↦ rw z (Yields-return _ tt)
                  | inr z ↦ rw z (record {
                    of = λ s a e. Reads-first y ys quotes total odds a (
                        (read_selections-Yields ys (quotes ++ quote_of sys (defaults y) odds ∷ []) _
                            _ (All-append _ quotes _ h z)).of
                          s a e);
                  })
                ])
      ]

  pub reply-Keeps : {A : Type 0} {P : Store N → Type 0} (r : Result A) → Keeps P (reply r)
  unfolding reply
  reply-Keeps r = record { at = λ s h. h }

  odds_status-Keeps : {P : Store N → Type 0} (q : OddsRequest) → Keeps P (odds_status sys svc q)
  unfolding odds_status
  odds_status-Keeps q = Keeps-bind _ _ (reply-Keeps _) (λ status. Keeps-return _)

  pub get_odds-Keeps : {P : Store N → Type 0} (q : OddsRequest) → Keeps P (get_odds sys svc q)
  unfolding get_odds
  get_odds-Keeps q = Keeps-if _ _ _ (odds_status-Keeps q) (
      Keeps-bind _ _ (reply-Keeps _)
        (λ status. Keeps-if _ _ _ (Keeps-return _) (odds_status-Keeps q)))

  pub read_selections-Keeps :
      {P : Store N → Type 0} (selections : List (Selection N)) (quotes : List (Quote N))
      (total p : N)
      → Keeps P (read_selections sys svc selections quotes total p)
  unfolding read_selections
  read_selections-Keeps [] quotes total p = Keeps-return _
  read_selections-Keeps (y ∷ ys) quotes total p =
      elim (Option-cases (check_selection sys (defaults y))) [
        | inr (r, e) ↦ rw (read_selections, e) (Keeps-return _)
        | inl e ↦
            rw (read_selections, e)
              (Keeps-bind _ _ (get_odds-Keeps _) λ odds.
                elim (Bool-cases (sys.floats.same odds sys.floats.zero_num)) [
                  | inl z ↦ rw z (Keeps-return _)
                  | inr z ↦ rw z (read_selections-Keeps ys _ _ _)
                ])
      ]

  -- If the loop over the selections does not refuse them, then their total odds are the product of the
  -- odds of the request alone, each at two decimals, whatever the odds service answers; the quotes are of the selections,
  -- in their order, each at odds that are not 0; and nothing is changed.
  pub read_selections-total :
      (selections : List (Selection N)) (qs : List (Quote N)) (total p : N) (s t : Store N)
      → read_selections sys svc selections [] sys.floats.one_num sys.floats.one_num s
        ≡ (ok (quoted qs total p), t)
      → (total ≡ product_of sys.floats.one_num selections)
        × (map (λ q. q.selection) qs ≡ map defaults selections)
        × Offered qs
        × (t ≡ s)
  read_selections-total selections qs total p s t e =
      let (sum, same, offered) =
        (read_selections-Yields selections [] sys.floats.one_num sys.floats.one_num tt).of s
          (quoted qs total p) (ap (λ r. r.0) e) in
      (
        sum,
        same,
        offered,
        sym (ap (λ r. r.1) e)
            ∙ Leaves-at (λ s. s)
                (read_selections sys svc selections [] sys.floats.one_num sys.floats.one_num)
                (λ c. read_selections-Keeps selections [] sys.floats.one_num sys.floats.one_num) s,
      )
