-- ===== src/History/Codes.antt =====
-- The codes that `findAll` and `findSingle` of src/bets/bets.service.ts give the states of a bet.
use betting_service.Prelude.{◌≡◌, some, arith, if◌then◌else◌}
use betting_service.Int.{ℤ, ◌=ℤ◌, bet_cancelled}
use betting_service.History.{listed_status, single_status}

-- The two say the same of every state but that of a cancelled bet, which `findSingle` gives the code
-- of a void one.
pub single_status-listed :
    (status : ℤ)
    → single_status status ≡ (
        if status =ℤ bet_cancelled
        then some (record { description = "Cancelled"; code = 3 })
        else listed_status status)
unfolding single_status listed_status
single_status-listed status = ground arith
