-- ===== src/Placing/Text.antt =====
-- The texts that describe a bet: `countItem`, `groupSelections`, `betTypeDescription` and
-- `getComboName` of src/commons/helper.ts.
use Prim.Native.String.{◌++◌ as append}
use betting_service.Prelude.{
  ℕ, zero, suc, ◌==◌, ◌/◌, ◌%◌, ltb, String, true, false, str_eq, if◌then◌else◌, List, [], ◌∷◌,
  Option, none, some, length,
}
use betting_service.Table.{exists_where}
use betting_service.Placing.Quoting.{Quote}

-- The five texts that describe the selections of a bet.
pub record Descriptions : Type 0 where
  pub category : String
  pub sports : String
  pub events : String
  pub tournaments : String
  pub markets : String

-- A number as text.
abbrev pick : List String → ℕ → String
pick [] n = ""
pick (x ∷ xs) zero = x
pick (x ∷ xs) (suc n) = pick xs n

abbrev digit : ℕ → String
digit = pick ("0" ∷ "1" ∷ "2" ∷ "3" ∷ "4" ∷ "5" ∷ "6" ∷ "7" ∷ "8" ∷ "9" ∷ [])

pub digits : (fuel n : ℕ) → String
digits zero n = ""
digits (suc fuel) n = elim (ltb n 10) [
  | true ↦ digit n
  | false ↦ append (digits fuel (n / 10)) (digit (n % 10))
]

abbrev pub text_of : ℕ → String
text_of n = digits (suc n) n

module _ {ℓ} {A : Type ℓ} (key : A → String) where
  -- The number of keys that `groupSelections` makes.
  unfoldable pub group_selections : List A → ℕ
  group_selections [] = 0
  group_selections (x ∷ xs) =
      let rest = group_selections xs in
      if exists_where (λ y. str_eq (key y) (key x)) xs then rest else suc rest

  -- Of no selections, the key of the first throws.
  unfoldable pub count_item : List A → String → Option String
  count_item [] text = none
  count_item (x ∷ xs) text =
      let n = group_selections (x ∷ xs) in
      some (if ltb 1 n then append (text_of n) (append " " text) else key x)

pub get_combo_name : ℕ → String
get_combo_name n =
    if n == 2
    then "Com: Doubles"
    else if n == 3
    then "Com: Trebles"
    else append "Com: " (append (text_of n) " folds")

-- For a combination `getSystemBetName` reads `bet.Groupings`, which a request does not have: it
-- throws.
unfoldable pub bet_type_description : (bet_type : String) → (selections : ℕ) → Option String
bet_type_description bet_type n =
    if str_eq bet_type "Combo"
    then none
    else if str_eq bet_type "Multiple"
    then some (get_combo_name n)
    else some "Singles"

infixl 5 ◌>>=◌
abbrev pub ◌>>=◌ : {A B : Type 0} → Option A → (A → Option B) → Option B
none >>= f = none
some a >>= f = f a

-- `none` is the error of one of them.
unfoldable pub descriptions :
    {N : Type 0} → (bet_type : String) → List (Quote N) → Option Descriptions
descriptions bet_type quotes = do
  category ← bet_type_description bet_type (length quotes)
  sports ← count_item (λ q. q.selection.sport) quotes "Sports"
  events ← count_item (λ q. q.selection.event_name) quotes "Events"
  tournaments ← count_item (λ q. q.selection.tournament) quotes "Tournaments"
  markets ← count_item (λ q. q.selection.market_name) quotes "Markets"
  some (record {
    category = category;
    sports = sports;
    events = events;
    tournaments = tournaments;
    markets = markets;
  })
