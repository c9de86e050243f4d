-- ===== src/Response/Offsets.antt =====
-- The offset of a page is computed in four places of the program.
use test_lintaspay_backend.Common.{
  ℕ, ◌+◌, ◌-◌, ◌*◌, ◌^◌, ◌≤◌, ◌<◌, ◌≡◌, sym, ◌∙◌, pos, wrap64-eq, sub_pos, mul_pos, arith,
}
use test_lintaspay_backend.Repository.{page_offset}
use test_lintaspay_backend.Filter as Filter
use test_lintaspay_backend.Filter.{BaseFilter}
use test_lintaspay_backend.Legacy as Legacy
use test_lintaspay_backend.Response.{get_offset}
use test_lintaspay_backend.Response.Pages.{get_offset-eq, get_offset-suc}

page_offset-pos :
    (page size : ℕ)
    → 1 ≤ page
    → page < 2 ^ 63
    → (page - 1) * size < 2 ^ 63
    → page_offset (pos page) (pos size) ≡ pos ((page - 1) * size)
unfolding page_offset
page_offset-pos page size h p b =
    rw (sub_pos page 1 h, wrap64-eq (pos (page - 1)) (omega arith), mul_pos (page - 1) size)
      (wrap64-eq (pos ((page - 1) * size)) b)

default_page :
    {F : Type 0} (f : BaseFilter F) (page : ℕ)
    → f.page ≡ pos page
    → 1 ≤ page
    → Filter.get_default_page f ≡ pos page
unfolding Filter.get_default_page
default_page f page e h = rw e (ground arith)

default_limit :
    {F : Type 0} (f : BaseFilter F) (size : ℕ)
    → f.limit ≡ pos size
    → 1 ≤ size
    → size ≤ 100
    → Filter.get_default_limit f ≡ pos size
unfolding Filter.get_default_limit
default_limit f size e h k = rw e (ground arith)

filter_offset :
    {F : Type 0} (f : BaseFilter F) (page size : ℕ)
    → f.page ≡ pos page
    → f.limit ≡ pos size
    → 1 ≤ page
    → 1 ≤ size
    → size ≤ 100
    → page < 2 ^ 63
    → (page - 1) * size < 2 ^ 63
    → Filter.get_offset f ≡ pos ((page - 1) * size)
unfolding Filter.get_offset
filter_offset f page size p l h k m b c =
    rw
      (
        default_page f page p h,
        default_limit f size l k m,
        sub_pos page 1 h,
        wrap64-eq (pos (page - 1)) (omega arith),
        mul_pos (page - 1) size,
      )
      (wrap64-eq (pos ((page - 1) * size)) c)

-- For a page of at least one and a size from 1 to 100 whose product stays below the largest
-- `int64`: the repository's offset, those of the two response packages and that of the base filter
-- with this page and limit are all `(page - 1) * size`, and the next page starts `size` items later.
pub offsets-Agree :
    {F : Type 0} (f : BaseFilter F) (page size : ℕ)
    → f.page ≡ pos page
    → f.limit ≡ pos size
    → 1 ≤ page
    → 1 ≤ size
    → size ≤ 100
    → page * size + 1 < 2 ^ 63
    → let start = pos ((page - 1) * size) in
      (page_offset (pos page) (pos size) ≡ start)
      × (get_offset (pos page) (pos size) ≡ start)
      × (Legacy.get_offset (pos page) (pos size) ≡ start)
      × (Filter.get_offset f ≡ start)
      × (get_offset (pos (page + 1)) (pos size) ≡ pos ((page - 1) * size + size))
offsets-Agree f page size p l h k m b =
    let (here, next) = get_offset-suc page size h k b in
    let small : page < 2 ^ 63 = grind arith in
    let below : (page - 1) * size < 2 ^ 63 = grind arith in
    (
      page_offset-pos page size h small below,
      here,
      sym (get_offset-eq (pos page) (pos size)) ∙ here,
      filter_offset f page size p l h k m small below,
      next,
    )
