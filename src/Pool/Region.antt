-- ===== src/Pool/Region.antt =====
-- src/pool.c: that an allocation keeps the accounts, and where its bytes lie.
use shuttlesock.Base.{
  ℕ, ◌+◌, ◌-◌, ◌%◌, ◌^◌, ◌≤◌, ◌<◌, ◌≡◌, refl, ◌⊎◌, inl, inr, Bool, Bool-cases, true, false, Option,
  some, List, ◌∷◌, arith,
}
use shuttlesock.Pool.{Page, Pool, Malloc, sizeof_page, sizeof_allocd, link_page, update_space}
use shuttlesock.Pool.Alloc.{palloc_with_alignment}
use shuttlesock.Pool.Books.{
  Balanced, Books, Synced, IsBlock, link_page-Books, update_space-Balanced,
}
use shuttlesock.Pool.Place.{placed, taken, taken_page, pages-taken}
use shuttlesock.Pool.Outcome.{
  IsMalloc, fresh_page, own_block, pages-link_page, Synced-link_page, Ends, in_last, in_fresh,
  in_own, refused, palloc-Ends, placed_fresh,
}

-- What every operation on a pool keeps: right accounts, a cursor at the end of the last page, and
-- room for a header in a page.
pub record Sound (pool : Pool) : Type 0 where
  pub books : Books pool
  pub synced : Synced pool
  pub room : sizeof_page ≤ pool.page_size

pub placed-ge : (align : Bool) (cur : ℕ) → cur ≤ placed align cur
placed-ge true cur = omega arith
placed-ge false cur = omega arith

module _ (pool : Pool) (s : Sound pool) where
  open s use {books}
  open books use {balanced}

  module _ (p : Page) (ps : List Page) (e : pool.pages ≡ p ∷ ps) (sz : ℕ) (align : Bool) where
    booked : Balanced pool.page_size pool.space (p ∷ ps)
    booked = rw e at balanced

    pub taken-Sound :
        placed align p.space.cur + sz ≤ p.base + pool.page_size → Sound (taken pool p ps sz align)
    unfolding update_space
    taken-Sound fits = record {
      books = record {
        small = books.small;
        balanced =
            update_space-Balanced (record pool { page_cur = placed align p.space.cur + sz }) p ps sz
              (placed align p.space.cur - p.space.cur) booked
              (omega (arith, placed-ge align p.space.cur)) fits;
        sized = books.sized;
        allocd = books.allocd;
        count = ground (arith, books.count);
      };
      synced = refl;
      room = s.room;
    }

  pub own_block-Sound : (sz a : ℕ) → sz < 2 ^ 62 → Sound (own_block pool sz a)
  own_block-Sound sz a h = record {
    books = record {
      small = books.small;
      balanced = record {
        fits = balanced.fits;
        used = balanced.used;
        reserved = balanced.reserved;
        wasted = balanced.wasted;
        free = balanced.free;
      };
      sized = (omega arith, books.sized);
      allocd = omega (arith, books.allocd);
      count = books.count;
    };
    synced = s.synced;
    room = s.room;
  }

  pub link_page-Sound : (a : ℕ) → IsBlock pool.page_size a → Sound (link_page pool a)
  unfolding link_page
  link_page-Sound a block = record {
    books = link_page-Books pool books a s.synced s.room block;
    synced = Synced-link_page pool a;
    room = s.room;
  }

-- The allocation at `ptr` is the last thing in page `x`, behind `floor`.
abbrev pub LastIn : (size sz floor ptr : ℕ) → Page → Type 0
LastIn size sz floor ptr x =
    (floor ≤ ptr) × (ptr + sz ≡ x.space.cur) × (x.space.cur ≤ x.base + size)

-- Where the bytes of an allocation lie that got the pool from `pool`, of last page `p`, to `q`.
abbrev pub Lies :
    (pool : Pool) (p : Page) (ps : List Page) (sz : ℕ) (page_mem own_mem : Malloc) (ptr : ℕ)
    (q : Pool)
    → Type 0
Lies pool p ps sz page_mem own_mem ptr q =
    ((x : Page) × (q.pages ≡ x ∷ ps)
      × (x.base ≡ p.base)
      × LastIn pool.page_size sz p.space.cur ptr x)
    ⊎ (((x : Page) × (q.pages ≡ x ∷ pool.pages)
          × (page_mem pool.page_size ≡ some x.base)
          × LastIn pool.page_size sz (x.base + sizeof_page) ptr x)
        ⊎ ((a : ℕ) × (own_mem (sizeof_allocd + sz) ≡ some a)
            × (ptr ≡ a + sizeof_allocd)
            × (q ≡ own_block pool sz a)))

module _ (pool : Pool) (s : Sound pool) (p : Page) (ps : List Page) (e : pool.pages ≡ p ∷ ps)
    (page_mem own_mem : Malloc) (pm : IsMalloc page_mem) (om : IsMalloc own_mem) (sz : ℕ)
    (align : Bool) (h : sz < 2 ^ 62) (r : Option ℕ) (q : Pool)
    (eq : palloc_with_alignment pool sz align page_mem own_mem ≡ some (r, q)) where
  pub ends : Ends pool p ps sz align page_mem own_mem (some (r, q))
  ends =
      rw (← eq) (palloc-Ends pool p ps e s.books s.synced s.room page_mem own_mem pm om sz align h)

  fresh_taken-Sound :
      (a : ℕ)
      → IsBlock pool.page_size a
      → sizeof_page + sz ≤ pool.page_size
      → Sound (taken (link_page pool a) (fresh_page a) pool.pages sz align)
  unfolding link_page
  fresh_taken-Sound a block fits =
      taken-Sound (link_page pool a) (link_page-Sound pool s a block) (fresh_page a) pool.pages
        (pages-link_page pool a s.room block) sz align
        (rw (placed_fresh align a block.aligned) (omega arith))

  -- Every allocation keeps the accounts right.
  pub palloc-Sound : Sound q
  palloc-Sound = elim ends [
    | in_last fits res ↦
        let eq_q : q ≡ taken pool p ps sz align = cc in
        rw eq_q (taken-Sound pool s p ps e sz align fits)
    | in_fresh a over fits mem res ↦
        let eq_q : q ≡ taken (link_page pool a) (fresh_page a) pool.pages sz align = cc in
        rw eq_q (fresh_taken-Sound a (pm _ a mem) fits)
    | in_own a over why mem res ↦
        let eq_q : q ≡ own_block pool sz a = cc in rw eq_q (own_block-Sound pool s sz a h)
    | refused over why mem res ↦ let eq_q : q ≡ pool = cc in rw eq_q s
  ]

  placed_aligned : (cur : ℕ) → (align ≡ false) ⊎ (placed align cur % 8 ≡ 0)
  placed_aligned cur = elim (Bool-cases align) [
    | inl al ↦ inr (rw al (omega arith))
    | inr al ↦ inl al
  ]

  -- An aligned allocation is at a multiple of 8, and it lies within a page behind everything that
  -- the page held before, or in a block of its own.
  pub palloc-Lies :
      (ptr : ℕ)
      → r ≡ some ptr
      → ((align ≡ false) ⊎ (ptr % 8 ≡ 0)) × Lies pool p ps sz page_mem own_mem ptr q
  unfolding update_space
  palloc-Lies ptr ptr_eq = elim ends [
    | in_last fits res ↦
        let eq_q : q ≡ taken pool p ps sz align = cc in
        let at : ptr ≡ placed align p.space.cur = cc in
        rw (eq_q, at)
          (
            placed_aligned p.space.cur,
            inl (
              taken_page p sz align,
              pages-taken pool p ps sz align,
              refl,
              (placed-ge align p.space.cur, refl, fits),
            ),
          )
    | in_fresh a over fits mem res ↦
        let eq_q : q ≡ taken (link_page pool a) (fresh_page a) pool.pages sz align = cc in
        let at : ptr ≡ a + sizeof_page = cc in
        let low = placed_fresh align a (pm _ a mem).aligned in
        rw (eq_q, at)
          (
            inr (omega (arith, (pm _ a mem).aligned)),
            inr (
                inl (
                  taken_page (fresh_page a) sz align,
                  pages-taken (link_page pool a) (fresh_page a) pool.pages sz align,
                  mem,
                  (omega arith, omega (arith, low), omega (arith, low)),
                )),
          )
    | in_own a over why mem res ↦
        let eq_q : q ≡ own_block pool sz a = cc in
        let at : ptr ≡ a + sizeof_allocd = cc in
        rw (eq_q, at) (inr (omega (arith, (om _ a mem).aligned)), inr (inr (a, mem, refl, refl)))
    | refused over why mem res ↦ cc
  ]
