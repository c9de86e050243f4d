-- ===== src/Response/Pages.antt =====
-- What the pagination promises, and that its copies in the program agree.
use test_lintaspay_backend.Common.{
  ℕ, ◌+◌, ◌-◌, ◌*◌, ◌/◌, ◌^◌, ◌≤◌, ◌<◌, ◌≡◌, refl, ℤ, pos, wrap64-eq, ap, ◌∙◌, sub_pos, mul_pos,
  arith, ltb, true, ◌↔◌, if◌then◌else◌,
}
use test_lintaspay_backend.Legacy as Legacy
use test_lintaspay_backend.Legacy.{calculate_pagination_meta}
use test_lintaspay_backend.Response.{ceil_div, new_pagination, get_offset, at_least_one}

ceil_div-eq :
    (total size : ℕ)
    → 1 ≤ size
    → total + size < 2 ^ 63
    → ceil_div (pos total) (pos size) ≡ pos ((total + size - 1) / size)
unfolding ceil_div
ceil_div-eq total size h b = ground arith

-- Rounding a quotient up: the least number of parts of size `d` that hold `a`.
div_up : (a d : ℕ) → 1 ≤ d → (a ≤ (a + d - 1) / d * d)
div_up a d h = grind arith

div_up_least : (a d m : ℕ) → 1 ≤ d → a ≤ m * d → (a + d - 1) / d ≤ m
div_up_least a d m h k = grind arith

-- For a total and a page size that are positive and whose sum fits an `int64`, `total_pages` is the
-- least number, at least one, of pages of that size that hold the total.
pub total_pages-least :
    (total size : ℕ) (page : ℤ)
    → 1 ≤ size
    → total + size < 2 ^ 63
    → (n : ℕ) × ((new_pagination (pos total) page (pos size)).total_pages ≡ pos n)
      × (1 ≤ n)
      × (total ≤ n * size)
      × ((m : ℕ) → 1 ≤ m → total ≤ m * size → n ≤ m)
unfolding new_pagination
total_pages-least total size page h b =
    let q = (total + size - 1) / size in
    (
      if ltb q 1 then 1 else q,
      ground (arith, ceil_div-eq total size h b),
      ground arith,
      ground (arith, div_up total size h),
      λ m one' holds. ground (arith, div_up_least total size m h holds),
    )

at_least_one-pos : (d : ℤ) (n : ℕ) → 1 ≤ n → at_least_one d (pos n) ≡ pos n
at_least_one-pos d n h = ground arith

-- A page has a successor exactly when items are left behind it.
next_page_iff :
    (page limit total : ℕ)
    → 1 ≤ page
    → 1 ≤ limit
    → (page < (total + limit - 1) / limit) ↔ (page * limit < total)
next_page_iff page limit total h k = (
  λ lt. grind (arith, div_up_least total limit page k),
  λ lt. grind (arith, div_up total limit k),
)

-- The older pagination computes the same numbers, and `has_next` tells exactly whether items are
-- left behind the page: for a page of at least one, a positive limit, and a total with which
-- nothing overflows.
calculate_pagination_meta-has_next :
    (page limit total : ℕ)
    → 1 ≤ page
    → 1 ≤ limit
    → total + limit < 2 ^ 63
    → let meta = calculate_pagination_meta (pos page) (pos limit) (pos total) in
      (meta.total_pages ≡ (new_pagination (pos total) (pos page) (pos limit)).total_pages)
      × ((meta.has_next ≡ true) ↔ (page * limit < total))
unfolding calculate_pagination_meta new_pagination
calculate_pagination_meta-has_next page limit total h k b =
    let (to, from) = next_page_iff page limit total h k in
    (
      refl,
      rw (at_least_one-pos (pos 10) limit k, ceil_div-eq total limit k b)
          ((λ e. to (ground arith)), (λ lt. ground (arith, from lt))),
    )

-- `GetOffset` is written three times: here, in the older package and in the base filter. The first
-- two agree on all numbers.
pub get_offset-eq : (page size : ℤ) → get_offset page size ≡ Legacy.get_offset page size
unfolding get_offset Legacy.get_offset
get_offset-eq page size = refl

get_offset-pos :
    (page size : ℕ)
    → 1 ≤ page
    → 1 ≤ size
    → page < 2 ^ 63
    → (page - 1) * size < 2 ^ 63
    → get_offset (pos page) (pos size) ≡ pos ((page - 1) * size)
unfolding get_offset
get_offset-pos page size h k p b =
    rw
      (
        at_least_one-pos (pos 1) page h,
        at_least_one-pos (pos 10) size k,
        sub_pos page 1 h,
        wrap64-eq (pos (page - 1)) (omega arith),
        mul_pos (page - 1) size,
      )
      (wrap64-eq (pos ((page - 1) * size)) b)

page_size : (page size : ℕ) → 1 ≤ page → (page + 1 - 1) * size ≡ (page - 1) * size + size
page_size page size h =
    let e : page + 1 - 1 ≡ page - 1 + 1 = omega arith in omega (arith, ap (λ (t : ℕ). t * size) e)

-- The pages of a listing are disjoint and leave no gap: for a page of at least one and
-- a positive size whose product stays below the largest `int64`, the page starts at `(page - 1) *
-- size`, and the next one starts `size` items later.
pub get_offset-suc :
    (page size : ℕ)
    → 1 ≤ page
    → 1 ≤ size
    → page * size + 1 < 2 ^ 63
    → (get_offset (pos page) (pos size) ≡ pos ((page - 1) * size))
      × (get_offset (pos (page + 1)) (pos size) ≡ pos ((page - 1) * size + size))
get_offset-suc page size h k b = (
  get_offset-pos page size h k (grind arith) (grind arith),
  get_offset-pos (page + 1) size (omega arith) k (grind arith) (grind arith)
      ∙ ap pos (page_size page size h),
)
