-- ===== src/Pool/Alloc.antt =====
-- src/pool.c: the functions that a pool's user calls, `palloc_with_alignment` to
-- `shuso_pool_space`.
use shuttlesock.Base.{
  ℕ, ◌+◌, ◌-◌, Bool, true, false, Option, none, some, List, [], ◌∷◌, ◌++◌, ltb, ◌==◌, if◌then◌else◌,
  same_ptr, bind_crash, length, get_elem?, add64, sub64,
}
use shuttlesock.Pool.{
  PageSpace, Page, Allocd, Level, Pool, Malloc, max_levels, sizeof_level, no_page_space, zeroed,
  remove_page, free_last, plain_old_malloc, palloc_in_current_page, palloc_in_new_page,
}

-- `palloc_with_alignment`: the pointer or `NULL`, and the pool. `page_mem` answers the request for
-- a page, `own_mem` that for a block of its own.
unfoldable pub palloc_with_alignment :
    Pool → (sz : ℕ) → (align : Bool) → (page_mem own_mem : Malloc) → Option (Option ℕ × Pool)
palloc_with_alignment pool sz align page_mem own_mem = elim (palloc_in_current_page pool sz align) [
  | none ↦ none
  | some (some ret, pool') ↦ some (some ret, pool')
  | some (none, pool') ↦ elim (palloc_in_new_page pool' sz align page_mem) [
    | none ↦ none
    | some (some ret, pool'') ↦ some (some ret, pool'')
    | some (none, pool'') ↦ some (plain_old_malloc pool'' sz own_mem)
  ]
]

unfoldable pub palloc : Pool → ℕ → (page_mem own_mem : Malloc) → Option (Option ℕ × Pool)
palloc pool sz = palloc_with_alignment pool sz true

unfoldable pub palloc_unaligned : Pool → ℕ → (page_mem own_mem : Malloc) → Option (Option ℕ × Pool)
palloc_unaligned pool sz = palloc_with_alignment pool sz false

abbrev pub last_page : List Page → Option ℕ
last_page [] = none
last_page (p ∷ ps) = some p.base

abbrev pub last_page_space : List Page → PageSpace
last_page_space [] = no_page_space
last_page_space (p ∷ ps) = p.space

abbrev pub last_allocd : List Allocd → Option ℕ
last_allocd [] = none
last_allocd (b ∷ bs) = some b.addr

-- what `shuso_pool_mark_level` writes down
abbrev pub snapshot : Pool → Level
snapshot pool = record {
  page = last_page pool.pages;
  page_cur = pool.page_cur;
  page_space = last_page_space pool.pages;
  allocd = last_allocd pool.allocds;
}

-- `shuso_pool_mark_level`
unfoldable pub mark_level : Pool → (page_mem own_mem : Malloc) → Option (ℕ × Pool)
unfolding palloc
mark_level pool page_mem own_mem = elim (palloc pool sizeof_level page_mem own_mem) [
  | none ↦ none
  | some (none, pool') ↦ some (0, pool')
  | some (some level, pool') ↦
      if ltb (length pool'.levels) max_levels
      then some
          (length pool'.levels + 1, record pool' { levels = pool'.levels ++ snapshot pool' ∷ [] })
      else none
]

-- `while(pool->allocd.last != stop) plain_old_free_last(pool)`, over the blocks that the pool has.
-- At `NULL` the loop of `shuso_pool_empty` stops, and the other fails its assertion.
unfoldable pub free_until : Option ℕ → Pool → List Allocd → Option Pool
free_until stop pool [] = if same_ptr none stop then some pool else none
free_until stop pool (b ∷ bs) =
    if same_ptr (some b.addr) stop
    then some pool
    else bind_crash (free_last pool (b ∷ bs)) (λ pool'. free_until stop pool' bs)

-- `while(pool->page.last != stop) remove_last_page(pool)`, over the pages that the pool has
unfoldable pub remove_until : Option ℕ → Pool → List Page → Option Pool
remove_until stop pool [] = if same_ptr none stop then some pool else none
remove_until stop pool (p ∷ ps) =
    if same_ptr (some p.base) stop
    then some pool
    else remove_until stop (remove_page pool (p ∷ ps)) ps

-- `shuso_pool_empty`
unfoldable pub empty : Pool → Option Pool
unfolding free_until remove_until
empty pool =
    bind_crash (free_until none pool pool.allocds) (λ pool'. remove_until none pool' pool'.pages)

-- The last page goes back to what the level holds of it.
unfoldable pub restore_page : Level → Pool → List Page → Option Pool
restore_page l pool [] = none
restore_page l pool (p ∷ ps) =
    let used_diff = sub64 p.space.used l.page_space.used in
    let wasted_diff = sub64 p.space.wasted l.page_space.wasted in
    some (record pool {
      space = record (pool.space) {
        used = sub64 pool.space.used used_diff;
        wasted = sub64 pool.space.wasted wasted_diff;
        free = add64 pool.space.free (add64 used_diff wasted_diff);
      };
      pages = record p { space = l.page_space } ∷ ps;
    })

abbrev pub has_ptr : Option ℕ → Bool
has_ptr none = false
has_ptr (some a) = true

-- `if(allocd)`: the loop runs only for a level that was marked behind a block of its own.
unfoldable pub drain_allocds : Level → Pool → Option Pool
unfolding free_until
drain_allocds l pool = if has_ptr l.allocd then free_until l.allocd pool pool.allocds else some pool

-- `if(page)`
unfoldable pub drain_pages : Level → Pool → Option Pool
unfolding remove_until restore_page
drain_pages l pool =
    if has_ptr l.page
    then bind_crash (remove_until l.page pool pool.pages)
        (λ pool'. restore_page l (record pool' { page_cur = l.page_cur }) pool'.pages)
    else some (record pool { page_cur = l.page_cur })

-- `shuso_pool_drain_to_level` at a level above 0
unfoldable pub drain_level : Option Level → Pool → Option (Bool × Pool)
unfolding drain_allocds drain_pages
drain_level none pool = none
drain_level (some l) pool =
    bind_crash (drain_allocds l pool)
      (λ pool'. bind_crash (drain_pages l pool') (λ pool''. some (true, pool'')))

-- `shuso_pool_drain_to_level`. Level 0 empties the pool and clears it whole.
unfoldable pub drain_to_level : Pool → ℕ → Option (Bool × Pool)
unfolding empty drain_level
drain_to_level pool levelnum =
    if ltb (length pool.levels) levelnum
    then some (false, pool)
    else if levelnum == 0
    then bind_crash (empty pool) (λ _. some (true, zeroed))
    else drain_level (get_elem? pool.levels (levelnum - 1)) pool

-- `shuso_pool_space_kind_t`
pub data SpaceKind : Type 0 where
  space_free space_used space_wasted space_reserved : SpaceKind

-- `shuso_pool_space`
unfoldable pub pool_space : Pool → SpaceKind → ℕ
pool_space pool space_used = pool.space.used
pool_space pool space_free = pool.space.free
pool_space pool space_wasted = pool.space.wasted
pool_space pool space_reserved = pool.space.reserved
