-- ===== src/History/Pages.antt =====
-- Which rows the pages of `findAll` in src/bets/bets.service.ts show.
use betting_service.Prelude.{
  ℕ, zero, suc, ◌+◌, ◌-◌, ◌*◌, ◌/◌, ◌%◌, ◌==◌, ltb, leb, ap, ◌≡◌, ◌≢◌, refl, ◌≤◌, ◌<◌, true, false,
  ◌&&◌, arith, Bool-cases, inl, inr, ◌⊎◌,
}
use native.Mathlib.Nat.{
  lt_of_mul-lt-mul_left, mul-le-mul_left, mod-add-div, mod-lt, add-mul-div_left, mul-suc, mul_comm,
  div-eq_of_lt, mul-div_cancel,
}
use betting_service.History.{
  page_size, page_of, shows, last_page_of, offset_of, limit_of, ceil_div, paginate_response,
}

-- On a page whose rows begin inside the result the offset is one less than what comes before it.
offset_inside :
    (total size index : ℕ) → size * index ≤ total → offset_of total size index ≡ size * index
unfolding offset_of
offset_inside total size index h = ground arith

-- The first page begins at the first row.
pub first_page : (total per_page page : ℕ) → page ≤ 1 → (page_of total per_page page).offset ≡ 0
unfolding page_of
first_page total per_page page h =
    let start : page - 1 ≡ 0 = omega arith in
    let none_before : page_size per_page * 0 ≡ 0 = omega arith in
    rw (start, offset_inside total (page_size per_page) 0 (omega arith), none_before) refl

pub size-page_of :
    (total per_page page : ℕ) → (page_of total per_page page).size ≡ page_size per_page
unfolding page_of
size-page_of total per_page page = refl

pred_suc : (k : ℕ) → suc k - 1 ≡ k
pred_suc k = omega arith

window :
    (total n k i : ℕ)
    → suc n * k ≤ total
    → shows (page_of total (suc n) (suc k)) i
      ≡ leb (limit_of (suc n * k)) i && ltb i (limit_of (suc n * k) + suc n)
unfolding page_of
window total n k i h = rw (pred_suc k, offset_inside total (suc n) k h) refl

-- Division by a size that is not 0, in the form that the pages need.
quotient : (i n : ℕ) → (suc n * (i / suc n) ≤ i) × (i < suc n * (i / suc n) + suc n)
quotient i n =
    let e = mod-add-div i (suc n) in
    let l = mod-lt i {m = suc n} (omega arith) in (omega arith, omega arith)

last_page_odd :
    (total n : ℕ)
    → suc n < total
    → 0 < total % suc n
    → last_page_of total (suc n) ≡ total / suc n + 2
unfolding last_page_of
last_page_odd total n more odd =
    let r = total % suc n in
    let q = total / suc n in
    let e : total + suc n - 1 ≡ (r - 1) + suc n * suc q =
      omega (arith, mod-add-div total (suc n), mul-suc (suc n) q) in
    let below = mod-lt total {m = suc n} (omega arith) in
    let small : (r - 1) / suc n ≡ 0 = div-eq_of_lt (omega arith) in
    let ceil : ceil_div total (suc n) ≡ q + 1 =
      rw e (omega (arith, add-mul-div_left (r - 1) (suc q) {y = suc n} (omega arith))) in
    ground (arith, ceil)

last_page_even : (pages n : ℕ) → 2 ≤ pages → last_page_of (pages * suc n) (suc n) ≡ pages
unfolding last_page_of
last_page_even pages n two =
    let e : pages * suc n + suc n - 1 ≡ n + suc n * pages = omega (arith, mul_comm pages (suc n)) in
    let none_left : pages * suc n % suc n ≡ 0 = omega (
      arith,
      mod-add-div (pages * suc n) (suc n),
      mul-div_cancel pages {n = suc n} (omega arith),
      mul_comm pages (suc n),
      ap (λ (k : ℕ). suc n * k) (mul-div_cancel pages {n = suc n} (omega arith)),
    ) in
    let rest : n / suc n ≡ 0 = div-eq_of_lt (omega arith) in
    let ceil : ceil_div (pages * suc n) (suc n) ≡ pages =
      rw e (omega (arith, add-mul-div_left n pages {y = suc n} (omega arith))) in
    let more : suc n < pages * suc n = grind arith in ground (arith, none_left, ceil, more)

product-ne-one : (n k : ℕ) → 1 ≤ n → suc n * k ≢ 1
product-ne-one n zero h e = omega (arith, e)
product-ne-one n (suc k) h e = omega (arith, e, mul-suc (suc n) k)

limit-shows :
    (n p i : ℕ)
    → p ≢ 1
    → p ≤ suc i
    → suc i < p + suc n
    → leb (limit_of p) i && ltb i (limit_of p + suc n) ≡ true
limit-shows n p i one low high = ground (arith, one)

shows_odd :
    (total n i : ℕ)
    → i < total
    → suc n < total
    → 0 < total % suc n
    → (page : ℕ) × (1 ≤ page)
      × (page ≤ (page_of total (suc n) 1).last_page)
      × (shows (page_of total (suc n) page) i ≡ true)
unfolding page_of
shows_odd total n i h more odd =
    let k = suc i / suc n in
    let (low, high) = quotient (suc i) n in
    let wide : 1 ≤ n = omega (arith, mod-lt total {m = suc n} (omega arith)) in
    let within : k ≤ total / suc n = omega (
      arith,
      lt_of_mul-lt-mul_left (suc n) {m = k} {n = suc (total / suc n)}
          (omega (arith, (quotient total n).1, mul-suc (suc n) (total / suc n))),
    ) in
    (
      suc k,
      omega arith,
      omega (arith, last_page_odd total n more odd),
      rw (window total n k i (omega arith))
          (limit-shows n (suc n * k) i (product-ne-one n k wide) low high),
    )

limit-misses :
    (n p total : ℕ)
    → p ≢ 1
    → p + suc n ≤ total
    → suc n + suc n ≤ total
    → leb (limit_of p) (total - 1) && ltb (total - 1) (limit_of p + suc n) ≡ false
limit-misses n p total one fits two = ground (arith, one)

-- Every row is on some page from the first to the last that `findAll` names, unless the rows fill
-- several pages to the end.
pub page_of-shows :
    (total per_page i : ℕ)
    → i < total
    → (suc per_page < total → 0 < total % suc per_page)
    → (page : ℕ) × (1 ≤ page)
      × (page ≤ (page_of total (suc per_page) 1).last_page)
      × (shows (page_of total (suc per_page) page) i ≡ true)
unfolding page_of last_page_of
page_of-shows total per_page i h odd = elim (Bool-cases (leb total (suc per_page))) [
  | inl e ↦ (
    1,
    omega arith,
    rw e (omega arith),
    rw (window total per_page 0 i (omega arith)) (ground arith),
  )
  | inr e ↦ shows_odd total per_page i h (ground arith) (odd (ground arith))
]

-- Rows that fill several pages of at least two to the end: the oldest of them is on no page.
pub page_of-misses :
    (pages per_page page : ℕ)
    → 2 ≤ pages
    → 1 ≤ per_page
    → 1 ≤ page
    → page ≤ (page_of (pages * suc per_page) (suc per_page) 1).last_page
    → let total = pages * suc per_page in
      shows (page_of total (suc per_page) page) (total - 1) ≡ false
unfolding page_of
page_of-misses pages per_page (zero) two more low high = absurd (omega arith)
page_of-misses pages per_page (suc k) two more low high =
    let total = pages * suc per_page in
    let is_last : suc k ≤ pages = rw (last_page_even pages per_page two) at high in
    let below : suc per_page * suc k ≤ suc per_page * pages =
      mul-le-mul_left (suc per_page) is_last in
    let twice : suc per_page * 2 ≤ suc per_page * pages = mul-le-mul_left (suc per_page) two in
    let fits : suc per_page * k + suc per_page ≤ total =
      omega (arith, below, mul-suc (suc per_page) k, mul_comm pages (suc per_page)) in
    rw (window total per_page k (total - 1) (omega arith)) (
      limit-misses per_page (suc per_page * k) total (product-ne-one per_page k more) fits
        (omega (arith, twice, mul_comm pages (suc per_page))))

pub ceil_div-between :
    (total n : ℕ)
    → (total ≤ suc n * ceil_div total (suc n)) × (suc n * ceil_div total (suc n) < total + suc n)
ceil_div-between total n =
    let x = total + suc n - 1 in
    let e = mod-add-div x (suc n) in
    let l = mod-lt x {m = suc n} (omega arith) in (omega arith, omega arith)

-- The pages of `paginateResponse` hold all rows and the last is not empty; the next page is one of
-- them, or 0 exactly if no page follows, and the page before is below this one.
pub paginate_response_bounds :
    (total page n : ℕ)
    → let p = paginate_response total page (suc n) in
      (total ≤ suc n * p.last_page)
      × (suc n * p.last_page < total + suc n)
      × (p.next_page ≤ p.last_page)
      × ((p.next_page == 0) ≡ leb p.last_page page)
      × ((p.prev_page ≡ 0) ⊎ (p.prev_page + 1 ≡ page))
unfolding paginate_response
paginate_response_bounds total page n =
    let (low, high) = ceil_div-between total n in
    (low, high, ground arith, ground arith, ground arith)
