-- ===== src/History/Tests.antt =====
-- Pages of seven and of eight rows, and the status of a cash-out.
use betting_service.Prelude.{ℕ, ◌≡◌, ◌≤◌, true, false, arith}
use betting_service.History.{page_of, shows, last_page_of}
use betting_service.History.Pages.{page_of-shows, page_of-misses}

page_of-shows_example :
    (page : ℕ) × (1 ≤ page)
    × (page ≤ (page_of 7 4 1).last_page)
    × (shows (page_of 7 4 page) 6 ≡ true)
page_of-shows_example = page_of-shows 7 3 6 (omega arith) (λ h. omega arith)

page_of-misses_example : shows (page_of 8 4 2) 7 ≡ false
unfolding page_of last_page_of
page_of-misses_example =
    page_of-misses 2 3 2 (omega arith) (omega arith) (omega arith) (omega arith)
