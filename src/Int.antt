-- ===== src/Int.antt =====
-- The integer columns `status` and `won`, and the codes that src/constants.ts gives to them.
use betting_service.Prelude.{ℕ, ◌≡◌, Bool, true, false, ◌==◌, arith}

-- `negsuc n` is -(n + 1).
pub data ℤ : Type 0 where
  pos : ℕ → ℤ
  negsuc : ℕ → ℤ

infix 50 ◌=ℤ◌
abbrev pub ◌=ℤ◌ : ℤ → ℤ → Bool
pos a =ℤ pos b = a == b
pos a =ℤ negsuc b = false
negsuc a =ℤ pos b = false
negsuc a =ℤ negsuc b = a == b

pub =ℤ_self : (a : ℤ) → (a =ℤ a) ≡ true
=ℤ_self (pos a) = ground arith
=ℤ_self (negsuc a) = ground arith

pub =ℤ_sound : (a b : ℤ) → (a =ℤ b) ≡ true → a ≡ b
=ℤ_sound a b h = ground arith

-- `status` of a bet
abbrev pub bet_pending : ℤ
bet_pending = pos 0

abbrev pub bet_lost : ℤ
bet_lost = pos 1

abbrev pub bet_won : ℤ
bet_won = pos 2

abbrev pub bet_voided : ℤ
bet_voided = pos 3

abbrev pub bet_cancelled : ℤ
bet_cancelled = negsuc 0

abbrev pub bet_cashout : ℤ
bet_cashout = pos 5

-- `status` of a slip
abbrev pub betslip_processing_pending : ℤ
betslip_processing_pending = pos 0

abbrev pub betslip_processing_settled : ℤ
betslip_processing_settled = pos 1

abbrev pub betslip_processing_completed : ℤ
betslip_processing_completed = pos 2

abbrev pub betslip_processing_cancelled : ℤ
betslip_processing_cancelled = negsuc 0

abbrev pub betslip_processing_voided : ℤ
betslip_processing_voided = pos 3

-- `won` of a bet and of a slip
abbrev pub status_not_lost_or_won : ℤ
status_not_lost_or_won = negsuc 0

abbrev pub status_won : ℤ
status_won = pos 1

abbrev pub status_lost : ℤ
status_lost = pos 0
