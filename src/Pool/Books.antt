-- ===== src/Pool/Books.antt =====
-- src/pool.c: the space that a pool accounts for, and that the accounts are right.
use shuttlesock.Base.{ℕ, ◌+◌, ◌-◌, ◌%◌, ◌^◌, ◌≤◌, ◌<◌, ◌≡◌, refl, List, [], ◌∷◌, All, arith, length}
use shuttlesock.Pool.{
  Page, Allocd, Space, Pool, sizeof_page, retire, link_page, reopen, remove_page, update_space,
}

-- A page lies in the address space, and its header, its bytes in use and its padding fill it up to
-- where the next allocation goes.
pub record PageFits (size : ℕ) (p : Page) : Type 0 where
  pub aligned : p.base % 8 ≡ 0
  pub header : p.space.reserved ≡ sizeof_page
  pub filled : p.space.cur ≡ p.base + p.space.reserved + p.space.used + p.space.wasted
  pub inside : p.space.cur ≤ p.base + size
  pub top : p.base + size < 2 ^ 64

abbrev pub sum_used : List Page → ℕ
sum_used [] = 0
sum_used (p ∷ ps) = p.space.used + sum_used ps

abbrev pub sum_reserved : List Page → ℕ
sum_reserved [] = 0
sum_reserved (p ∷ ps) = p.space.reserved + sum_reserved ps

-- Padding, and the rest of each page, of pages that are not the last any more.
abbrev pub sum_lost : ℕ → List Page → ℕ
sum_lost size [] = 0
sum_lost size (p ∷ ps) = p.space.wasted + (p.base + size - p.space.cur) + sum_lost size ps

abbrev pub sum_wasted : ℕ → List Page → ℕ
sum_wasted size [] = 0
sum_wasted size (p ∷ ps) = p.space.wasted + sum_lost size ps

-- The rest of the last page.
abbrev pub rest : ℕ → List Page → ℕ
rest size [] = 0
rest size (p ∷ ps) = p.base + size - p.space.cur

abbrev pub sum_allocd : List Allocd → ℕ
sum_allocd [] = 0
sum_allocd (b ∷ bs) = b.size + sum_allocd bs

-- The space of pages `ps`, each of `size` bytes, is booked as `s`, in `size_t` arithmetic.
pub record Balanced (size : ℕ) (s : Space) (ps : List Page) : Type 0 where
  pub fits : All (PageFits size) ps
  pub used : s.used ≡ sum_used ps % 2 ^ 64
  pub reserved : s.reserved ≡ sum_reserved ps % 2 ^ 64
  pub wasted : s.wasted ≡ sum_wasted size ps % 2 ^ 64
  pub free : s.free ≡ rest size ps

abbrev pub AtCur : ℕ → List Page → Type 0
AtCur cur [] = Unit {0}
AtCur cur (p ∷ ps) = cur ≡ p.space.cur

abbrev pub IsSized : Allocd → Type 0
IsSized b = b.size < 2 ^ 64

-- The accounts of a pool are right.
pub record Books (pool : Pool) : Type 0 where
  pub small : pool.page_size < 2 ^ 63
  pub balanced : Balanced pool.page_size pool.space pool.pages
  pub sized : All IsSized pool.allocds
  pub allocd : pool.space.allocd ≡ sum_allocd pool.allocds % 2 ^ 64
  pub count : pool.page_count ≡ length pool.pages % 2 ^ 64

-- The next allocation goes where the last page ends.
abbrev pub Synced : Pool → Type 0
Synced pool = AtCur pool.page_cur pool.pages

-- What `malloc` promises of an answer `a` to a request for `size` bytes.
pub record IsBlock (size a : ℕ) : Type 0 where
  pub aligned : a % 8 ≡ 0
  pub top : a + size < 2 ^ 64

record Retired (size : ℕ) (s s' : Space) (ps : List Page) : Type 0 where
  used : s'.used ≡ s.used
  reserved : s'.reserved ≡ s.reserved
  wasted : s'.wasted ≡ sum_lost size ps % 2 ^ 64
  free : s'.free ≡ 0
  allocd : s'.allocd ≡ s.allocd

retire-Retired :
    (size cur : ℕ) (ps : List Page) (s : Space)
    → Balanced size s ps
    → AtCur cur ps
    → Retired size s (retire size cur ps s) ps
unfolding retire
retire-Retired size cur [] s b at = record {
  used = refl;
  reserved = refl;
  wasted = omega arith;
  free = omega arith;
  allocd = refl;
}
retire-Retired size cur (p ∷ ps) s b at = record {
  used = refl;
  reserved = refl;
  wasted = omega arith;
  free = omega arith;
  allocd = refl;
}

module _ (pool : Pool) (b : Books pool) where
  open b use {balanced}

  -- A fresh page is booked, and the one before it retired.
  pub link_page-Books :
      (a : ℕ)
      → Synced pool
      → sizeof_page ≤ pool.page_size
      → IsBlock pool.page_size a
      → Books (link_page pool a)
  unfolding link_page
  link_page-Books a at room block =
      let r = retire-Retired pool.page_size pool.page_cur pool.pages pool.space balanced at in
      record {
        small = b.small;
        balanced = record {
          fits = (
            record {
              aligned = block.aligned;
              header = omega arith;
              filled = omega arith;
              inside = omega arith;
              top = block.top;
            },
            balanced.fits,
          );
          used = omega (arith, r.used, balanced.used);
          reserved = omega (arith, r.reserved, balanced.reserved);
          wasted = omega (arith, r.wasted);
          free = omega (arith, r.free);
        };
        sized = b.sized;
        allocd = omega (arith, r.allocd, b.allocd);
        count = omega (arith, b.count);
      }

-- An allocation that fits is booked, with its padding.
pub update_space-Balanced :
    (pool : Pool) (p : Page) (ps : List Page) (sz padding : ℕ)
    → Balanced pool.page_size pool.space (p ∷ ps)
    → pool.page_cur ≡ p.space.cur + padding + sz
    → pool.page_cur ≤ p.base + pool.page_size
    → let q = update_space pool p ps sz padding in Balanced q.page_size q.space q.pages
unfolding update_space
update_space-Balanced pool p ps sz padding b e room = record {
  fits = (
    record {
      aligned = b.fits.0.aligned;
      header = b.fits.0.header;
      filled = omega arith;
      inside = omega arith;
      top = b.fits.0.top;
    },
    b.fits.1,
  );
  used = omega (arith, b.used);
  reserved = omega (arith, b.reserved);
  wasted = omega (arith, b.wasted);
  free = omega (arith, b.free);
}

-- Taking the last page away books it out, and reopens the one before it.
pub remove_page-Balanced :
    (pool : Pool) (p : Page) (ps : List Page)
    → Balanced pool.page_size pool.space (p ∷ ps)
    → Balanced pool.page_size (remove_page pool (p ∷ ps)).space ps
unfolding remove_page reopen
remove_page-Balanced pool p [] b = record {
  fits = tt;
  used = omega (arith, b.used);
  reserved = omega (arith, b.reserved);
  wasted = omega (arith, b.wasted);
  free = omega (arith, b.free);
}
remove_page-Balanced pool p (q ∷ ps) b = record {
  fits = b.fits.1;
  used = omega (arith, b.used);
  reserved = omega (arith, b.reserved);
  wasted = omega (arith, b.wasted);
  free = omega (arith, b.free);
}
