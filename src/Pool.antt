-- ===== src/Pool.antt =====
-- src/pool.c and src/include/shuttlesock/pool.h: the page pool, in the 64-bit build with
-- SHUTTLESOCK_POOL_TRACK_SPACE and without valgrind, sanitizers and SHUTTLESOCK_DEBUG_NOPOOL.
-- A linked list through `prev` is a list, its `last` at the head; a page, or a block of its own, is
-- known by its address. Each function that calls `malloc` takes the allocator's answers. A result
-- `none` is a crash: a failed assertion, or a dereference of `NULL`.
pub mod Alloc
pub mod Books
pub mod Place
pub mod Outcome
pub mod Region
pub mod Levels
pub mod Drain
pub mod Mark
pub mod Rollback
pub mod Empty
mod Tests
use shuttlesock.Base.{
  ℕ, Bool, true, false, Option, none, some, List, [], ◌∷◌, ltb, if◌then◌else◌, add64, sub64, slt64,
  align8,
}

-- `shuso_pool_page_space_t`
pub record PageSpace : Type 0 where
  pub used : ℕ
  pub wasted : ℕ
  pub reserved : ℕ
  pub cur : ℕ

-- `shuso_pool_page_t`, with its address
pub record Page : Type 0 where
  pub base : ℕ
  pub space : PageSpace

-- `shuso_pool_allocd_t`, with its address
pub record Allocd : Type 0 where
  pub addr : ℕ
  pub size : ℕ

-- `shuso_pool_level_t`. It lies in the pool's own memory, which its user does not write to.
pub record Level : Type 0 where
  pub page : Option ℕ
  pub page_cur : ℕ
  pub page_space : PageSpace
  pub allocd : Option ℕ

-- `struct shuso_pool_space_s`
pub record Space : Type 0 where
  pub wasted : ℕ
  pub free : ℕ
  pub used : ℕ
  pub reserved : ℕ
  pub allocd : ℕ

-- `shuso_pool_t`. `levels` holds the entries of `levels.array` below `levels.count`.
pub record Pool : Type 0 where
  pub space : Space
  pub page_size : ℕ
  pub page_count : ℕ
  pub pages : List Page
  pub page_cur : ℕ
  pub allocds : List Allocd
  pub levels : List Level

-- What `malloc` answers to a request of so many bytes.
abbrev pub Malloc : Type 0
Malloc = ℕ → Option ℕ

abbrev pub max_levels : ℕ
max_levels = 8

-- `sizeof(shuso_pool_page_t)`, `sizeof(shuso_pool_allocd_t)` and `sizeof(shuso_pool_level_t)`
abbrev pub sizeof_page : ℕ
sizeof_page = 40

abbrev pub sizeof_allocd : ℕ
sizeof_allocd = 16

abbrev pub sizeof_level : ℕ
sizeof_level = 56

abbrev pub no_space : Space
no_space = record { wasted = 0; free = 0; used = 0; reserved = 0; allocd = 0 }

abbrev pub no_page_space : PageSpace
no_page_space = record { used = 0; wasted = 0; reserved = 0; cur = 0 }

-- a pool whose bytes are all zero
abbrev pub zeroed : Pool
zeroed = record {
  space = no_space;
  page_size = 0;
  page_count = 0;
  pages = [];
  page_cur = 0;
  allocds = [];
  levels = [];
}

abbrev pub page_used_space : ℕ → ℕ → ℕ
page_used_space page cur = sub64 cur page

-- What `add_page` takes off `free` and calls wasted, of the page that it leaves behind.
pub retire : ℕ → ℕ → List Page → Space → Space
retire size cur [] s = s
retire size cur (p ∷ ps) s =
    let wasted = sub64 size (page_used_space p.base cur) in
    record s { free = sub64 s.free wasted; wasted = add64 s.wasted wasted }

-- the page at address `a`, linked in
pub link_page : Pool → ℕ → Pool
unfolding retire
link_page pool a =
    let cur = align8 (add64 a sizeof_page) in
    let reserved = page_used_space a cur in
    let s = retire pool.page_size pool.page_cur pool.pages pool.space in
    record pool {
      space = record s {
        free = add64 s.free (sub64 pool.page_size reserved);
        reserved = add64 s.reserved reserved;
      };
      page_count = add64 pool.page_count 1;
      pages =
          record {
            base = a;
            space = record { used = 0; wasted = 0; reserved = reserved; cur = cur };
          }
          ∷ pool.pages;
      page_cur = cur;
    }

-- `none` is the `NULL` that `add_page` returns.
pub add_page : Pool → Malloc → Option Pool
unfolding link_page
add_page pool malloc = elim (malloc pool.page_size) [
  | none ↦ none
  | some a ↦ some (link_page pool a)
]

-- What goes back to `free` when a page becomes the last again.
pub reopen : ℕ → List Page → Space → Space
reopen size [] s = s
reopen size (p ∷ ps) s =
    let left = sub64 size (page_used_space p.base p.space.cur) in
    record s { free = add64 s.free left; wasted = sub64 s.wasted left }

-- `remove_last_page`, with the pages that the pool has
pub remove_page : Pool → List Page → Pool
unfolding reopen
remove_page pool [] = pool
remove_page pool (p ∷ ps) =
    let s = pool.space in
    record pool {
      pages = ps;
      page_count = sub64 pool.page_count 1;
      space = reopen pool.page_size ps (record s {
        free = sub64 s.free (sub64 pool.page_size (page_used_space p.base p.space.cur));
        used = sub64 s.used p.space.used;
        wasted = sub64 s.wasted p.space.wasted;
        reserved = sub64 s.reserved p.space.reserved;
      });
    }

pub remove_last_page : Pool → Pool
unfolding remove_page
remove_last_page pool = remove_page pool pool.pages

-- `shuso_pool_init_clean`. `system_page_size` is `shuso_system.page_size`.
pub init_clean : (system_page_size : ℕ) → Pool → ℕ → Malloc → Bool × Pool
unfolding add_page
init_clean system_page_size pool pagesize malloc =
    let sized = record pool { page_size = if ltb 0 pagesize then pagesize else system_page_size } in
    elim (add_page sized malloc) [ none ↦ (false, sized) | some pool' ↦ (true, pool') ]

-- `shuso_pool_init`, which clears whatever was there
pub init : (system_page_size : ℕ) → ℕ → Malloc → Bool × Pool
unfolding init_clean
init system_page_size pagesize malloc = init_clean system_page_size zeroed pagesize malloc

-- `plain_old_malloc`: the pointer returned, or `NULL`, and the pool. `cur->data` is a flexible
-- array behind the header.
pub plain_old_malloc : Pool → ℕ → Malloc → Option ℕ × Pool
plain_old_malloc pool sz malloc = elim (malloc (add64 sizeof_allocd sz)) [
  | none ↦ (none, pool)
  | some a ↦ (
    some (add64 a sizeof_allocd),
    record pool {
      allocds = record { addr = a; size = sz } ∷ pool.allocds;
      space = record (pool.space) { allocd = add64 pool.space.allocd sz };
    },
  )
]

-- `plain_old_free_last`, with the blocks that the pool has
pub free_last : Pool → List Allocd → Option Pool
free_last pool [] = none
free_last pool (b ∷ bs) = some (record pool {
  allocds = bs;
  space = record (pool.space) { allocd = sub64 pool.space.allocd b.size };
})

-- an `ssize_t`
pub page_max_free_space : ℕ → ℕ
page_max_free_space pagesize = sub64 pagesize (align8 sizeof_page)

-- `pool_update_space`, with `padding` the sum of the two
pub update_space : Pool → Page → List Page → (sz padding : ℕ) → Pool
update_space pool p ps sz padding =
    let s = pool.space in
    record pool {
      space = record s {
        wasted = add64 s.wasted padding;
        used = add64 s.used sz;
        free = sub64 s.free (add64 sz padding);
      };
      pages =
          record p {
            space = record (p.space) {
              wasted = add64 p.space.wasted padding;
              used = add64 p.space.used sz;
              cur = pool.page_cur;
            };
          }
          ∷ ps;
    }

-- `pool_update_space` through `page`, which may be `NULL`
pub charge : Pool → List Page → (sz padding : ℕ) → Option Pool
unfolding update_space
charge pool [] sz padding = none
charge pool (p ∷ ps) sz padding = some (update_space pool p ps sz padding)

abbrev pub page_addr : List Page → ℕ
page_addr [] = 0
page_addr (p ∷ ps) = p.base

-- `palloc_in_current_page`. The comparison is signed; `after_padding` is 0 in this build.
pub palloc_in_current_page : Pool → (sz : ℕ) → (align : Bool) → Option (Option ℕ × Pool)
unfolding charge
palloc_in_current_page pool sz align =
    let cur = pool.page_cur in
    let ret = if align then align8 cur else cur in
    let before_padding = sub64 ret cur in
    if slt64 (sub64 pool.page_size (page_used_space (page_addr pool.pages) cur))
      (add64 before_padding sz)
    then some (none, pool)
    else elim (charge (record pool { page_cur = add64 ret sz }) pool.pages sz before_padding) [
      | none ↦ none
      | some pool' ↦ some (some ret, pool')
    ]

-- `assert(ret)`
pub assert_some : Option (Option ℕ × Pool) → Option (Option ℕ × Pool)
assert_some (some (some ret, pool)) = some (some ret, pool)
assert_some _ = none

-- `palloc_in_new_page`
pub palloc_in_new_page : Pool → (sz : ℕ) → (align : Bool) → Malloc → Option (Option ℕ × Pool)
unfolding page_max_free_space add_page palloc_in_current_page assert_some
palloc_in_new_page pool sz align malloc =
    if slt64 (page_max_free_space pool.page_size) sz
    then some (none, pool)
    else elim (add_page pool malloc) [
      | none ↦ some (none, pool)
      | some pool' ↦ assert_some (palloc_in_current_page pool' sz align)
    ]
