-- ===== src/Pool/Place.antt =====
-- src/pool.c: where `palloc_in_current_page` and `palloc_in_new_page` put an allocation.
use shuttlesock.Base.{
  ℕ, ◌+◌, ◌-◌, ◌*◌, ◌/◌, ◌^◌, ◌≤◌, ◌<◌, ◌≡◌, refl, Bool, true, false, none, some, List, ◌∷◌, arith,
  ltb, if◌then◌else◌, align8, sub64, slt64, add64,
}
use shuttlesock.Pool.{Page, Pool, page_used_space, update_space, page_addr, palloc_in_current_page}
use shuttlesock.Pool.Books.{PageFits, Books, Synced}

-- the first address at or after `cur` that an allocation may have
abbrev pub placed : Bool → ℕ → ℕ
placed true cur = (cur + 7) / 8 * 8
placed false cur = cur

-- the pointer that the code computes
abbrev pub pointer : Bool → ℕ → ℕ
pointer align cur = if align then align8 cur else cur

-- The code's signed comparison asks whether the allocation ends behind the page.
full_iff :
    (align : Bool) (base size cur sz : ℕ)
    → size < 2 ^ 63
    → base + size < 2 ^ 64
    → base ≤ cur
    → cur ≤ base + size
    → sz < 2 ^ 62
    → slt64 (sub64 size (page_used_space base cur)) (add64 (sub64 (pointer align cur) cur) sz)
      ≡ ltb (base + size) (placed align cur + sz)
full_iff true base size cur sz small top lo hi h = ground arith
full_iff false base size cur sz small top lo hi h = ground arith

-- Of an allocation that fits, the pointer and the padding do not wrap.
placed_exact :
    (align : Bool) (cur sz stop : ℕ)
    → stop < 2 ^ 64
    → placed align cur + sz ≤ stop
    → (pointer align cur ≡ placed align cur)
      × (sub64 (pointer align cur) cur ≡ placed align cur - cur)
      × (add64 (pointer align cur) sz ≡ placed align cur + sz)
placed_exact true cur sz stop top room = omega arith
placed_exact false cur sz stop top room = omega arith

-- The pool after an allocation in its last page `p`.
abbrev pub taken : Pool → Page → List Page → (sz : ℕ) → Bool → Pool
taken pool p ps sz align =
    let ret = placed align p.space.cur in
    update_space (record pool { page_cur = ret + sz }) p ps sz (ret - p.space.cur)

-- The page after an allocation in it.
abbrev pub taken_page : Page → (sz : ℕ) → Bool → Page
taken_page p sz align =
    let ret = placed align p.space.cur in
    record p {
      space = record (p.space) {
        wasted = add64 p.space.wasted (ret - p.space.cur);
        used = add64 p.space.used sz;
        cur = ret + sz;
      };
    }

pub pages-taken :
    (pool : Pool) (p : Page) (ps : List Page) (sz : ℕ) (align : Bool)
    → (taken pool p ps sz align).pages ≡ taken_page p sz align ∷ ps
unfolding update_space
pages-taken pool p ps sz align = refl

module _ (pool : Pool) (p : Page) (ps : List Page) (e : pool.pages ≡ p ∷ ps) where
  module _ (b : Books pool) (at : Synced pool) where
    last_fits : PageFits pool.page_size p
    last_fits = ground (arith, b.balanced.fits)

    at_last : pool.page_cur ≡ p.space.cur
    at_last = ground (arith, at)

    module _ (sz : ℕ) (align : Bool) (h : sz < 2 ^ 62) where
      test_full :
          slt64
            (sub64 pool.page_size (page_used_space (page_addr pool.pages) pool.page_cur))
            (add64 (sub64 (pointer align pool.page_cur) pool.page_cur) sz)
          ≡ ltb (p.base + pool.page_size) (placed align p.space.cur + sz)
      test_full =
          rw (e, at_last)
            (full_iff align p.base pool.page_size p.space.cur sz b.small last_fits.top
              (omega (arith, last_fits.filled)) last_fits.inside h)

      -- An allocation that does not fit leaves the pool alone.
      pub current-full :
          p.base + pool.page_size < placed align p.space.cur + sz
          → palloc_in_current_page pool sz align ≡ some (none, pool)
      unfolding palloc_in_current_page
      current-full over = ground (arith, test_full)

      -- One that fits goes to the next free address, and is booked.
      pub current-fits :
          placed align p.space.cur + sz ≤ p.base + pool.page_size
          → palloc_in_current_page pool sz align
            ≡ some (some (placed align p.space.cur), taken pool p ps sz align)
      unfolding palloc_in_current_page
      current-fits room = ground (arith, test_full, at_last, exact)
        where
          exact :
              (pointer align pool.page_cur ≡ placed align p.space.cur)
              × (sub64 (pointer align pool.page_cur) pool.page_cur
                  ≡ placed align p.space.cur - p.space.cur)
              × (add64 (pointer align pool.page_cur) sz ≡ placed align p.space.cur + sz)
          exact = rw at_last (placed_exact align p.space.cur sz _ last_fits.top room)
