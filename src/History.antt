-- ===== src/History.antt =====
-- The pages of bets and the words for their states: the arithmetic of `findAll` and the status codes of
-- `findAll` and `findSingle` in src/bets/bets.service.ts, and `paginateResponse` of
-- src/commons/helper.ts.
mod Tests
pub mod Pages
pub mod Codes
use betting_service.Prelude.{
  ℕ, zero, suc, ◌+◌, ◌-◌, ◌*◌, ◌/◌, ◌%◌, ◌==◌, ltb, leb, String, Bool, true, false, ◌&&◌,
  if◌then◌else◌, Option, none, some,
}
use betting_service.Int.{
  ℤ, pos, negsuc, ◌=ℤ◌, bet_pending, bet_lost, bet_won, bet_voided, bet_cancelled, bet_cashout,
  status_not_lost_or_won, status_lost, status_won,
}

-- `a - b` of two numbers that are not negative.
abbrev pub minus : ℕ → ℕ → ℤ
minus a b = if leb b a then pos (a - b) else negsuc (b - a - 1)

-- `Math.ceil(total / size)`, for a size that is not 0
abbrev pub ceil_div : ℕ → ℕ → ℕ
ceil_div total size = (total + size - 1) / size

-- `perPage || 50`
abbrev pub page_size : ℕ → ℕ
page_size zero = 50
page_size (suc n) = suc n

-- What `findAll` makes of the number of rows and of the page asked for: `LIMIT offset,size`, and the
-- numbers that it returns.
pub record Page : Type 0 where
  pub offset : ℕ
  pub size : ℕ
  pub last_page : ℕ
  pub from : ℕ
  pub to : ℕ
  pub remaining : ℤ

pub last_page_of : (total size : ℕ) → ℕ
last_page_of total size =
    if leb total size
    then 1
    else (if ltb size total && ltb 0 (total % size)
        then ceil_div total size + 1
        else ceil_div total size)

-- `offset`, before the query takes one from it; `index` is `current_page`.
unfoldable pub offset_of : (total size index : ℕ) → ℕ
offset_of total size index =
    let offset = size * index in
    if ltb total offset
    then (if ltb total (index * size) then (index - 1) * size else total - index * size)
    else offset

-- `off > 0`, where `off` is the offset less one
abbrev pub limit_of : ℕ → ℕ
limit_of offset = if ltb 1 offset then offset - 1 else offset

unfoldable pub page_of : (total per_page page : ℕ) → Page
page_of total per_page page =
    let size = page_size per_page in
    let offset = offset_of total size (page - 1) in
    record {
      offset = limit_of offset;
      size = size;
      last_page = last_page_of total size;
      from = offset + 1;
      to = offset + 1 + total;
      remaining = minus total offset;
    }

-- The rows of the sorted result that `LIMIT offset,size` returns, by their indices.
abbrev pub shows : Page → ℕ → Bool
shows p i = leb p.offset i && ltb i (p.offset + p.size)

-- `paginateResponse`
pub record Pager : Type 0 where
  pub count : ℕ
  pub current_page : ℕ
  pub next_page : ℕ
  pub prev_page : ℕ
  pub last_page : ℕ

unfoldable pub paginate_response : (total page limit : ℕ) → Pager
paginate_response total page limit =
    let last_page = ceil_div total limit in
    record {
      count = total;
      current_page = page;
      next_page = if ltb last_page (page + 1) then 0 else page + 1;
      prev_page = if ltb page 2 then 0 else page - 1;
      last_page = last_page;
    }

-- The description and the code of a state.
pub record StatusText : Type 0 where
  pub description : String
  pub code : ℕ

-- `findAll`; a status that is none of these sets neither.
pub listed_status : ℤ → Option StatusText
listed_status status =
    if status =ℤ bet_pending
    then some (record { description = "Pending"; code = 0 })
    else (if status =ℤ bet_lost
        then some (record { description = "Lost"; code = 2 })
        else (if status =ℤ bet_won
            then some (record { description = "Won"; code = 1 })
            else (if status =ℤ bet_voided
                then some (record { description = "Void"; code = 3 })
                else (if status =ℤ bet_cancelled
                    then some (record { description = "Cancelled"; code = 4 })
                    else (if status =ℤ bet_cashout
                        then some (record { description = "Cashout"; code = 1 })
                        else none)))))

-- `findSingle`
pub single_status : ℤ → Option StatusText
single_status status =
    if status =ℤ bet_pending
    then some (record { description = "Pending"; code = 0 })
    else (if status =ℤ bet_lost
        then some (record { description = "Lost"; code = 2 })
        else (if status =ℤ bet_won
            then some (record { description = "Won"; code = 1 })
            else (if status =ℤ bet_voided
                then some (record { description = "Void"; code = 3 })
                else (if status =ℤ bet_cancelled
                    then some (record { description = "Cancelled"; code = 3 })
                    else (if status =ℤ bet_cashout
                        then some (record { description = "Cashout"; code = 1 })
                        else none)))))
