-- ===== src/Pool/Levels.antt =====
-- src/pool.c: the loops of `shuso_pool_empty` and `shuso_pool_drain_to_level`.
use shuttlesock.Base.{
  ℕ, ◌%◌, ◌^◌, ◌≤◌, ◌≡◌, refl, ◌≢◌, ap, ◌∙◌, false, Option, none, some, List, [], ◌∷◌, arith,
  length, ==_refl, All, same_ptr, sub64,
}
use shuttlesock.Pool.{Page, Allocd, Pool, remove_page, reopen, free_last}
use shuttlesock.Pool.Alloc.{free_until, remove_until, last_allocd}
use shuttlesock.Pool.Books.{IsSized, Balanced, sum_allocd, remove_page-Balanced}

-- The pages `ps`, with ever newer ones in front: first page `p` with more in it, then others.
pub data Grown (p : Page) (ps : List Page) : List Page → Type 0 where
  more :
      {x : Page}
      → x.base ≡ p.base
      → x.space.reserved ≡ p.space.reserved
      → p.space.used ≤ x.space.used
      → p.space.wasted ≤ x.space.wasted
      → Grown p ps (x ∷ ps)
  newer : {x : Page} {xs : List Page} → x.base ≢ p.base → Grown p ps xs → Grown p ps (x ∷ xs)

-- The blocks `bs`, with ever newer ones in front, none at the address `stop`.
pub data Piled (stop : Option ℕ) (bs : List Allocd) : List Allocd → Type 0 where
  same : Piled stop bs bs
  newer :
      {b : Allocd} {cs : List Allocd}
      → some b.addr ≢ stop
      → Piled stop bs cs
      → Piled stop bs (b ∷ cs)

-- The pool that the loop over pages stops at, having started at `pool`.
pub record Trimmed (pool : Pool) (p : Page) (ps : List Page) (x : Page) (out : Pool) : Type 0 where
  pub pages : out.pages ≡ x ∷ ps
  pub balanced : Balanced pool.page_size out.space (x ∷ ps)
  pub base : x.base ≡ p.base
  pub reserved : x.space.reserved ≡ p.space.reserved
  pub used : p.space.used ≤ x.space.used
  pub wasted : p.space.wasted ≤ x.space.wasted
  pub count : out.page_count ≡ length (x ∷ ps) % 2 ^ 64
  pub page_size : out.page_size ≡ pool.page_size
  pub allocds : out.allocds ≡ pool.allocds
  pub levels : out.levels ≡ pool.levels
  pub allocd : out.space.allocd ≡ pool.space.allocd

pub allocd-remove_page :
    (pool : Pool) (x : Page) (xs : List Page)
    → (remove_page pool (x ∷ xs)).space.allocd ≡ pool.space.allocd
unfolding remove_page reopen
allocd-remove_page pool x [] = refl
allocd-remove_page pool x (y ∷ xs) = refl

-- Trimming may begin with the removal of a page.
Trimmed-step :
    (pool : Pool) (p : Page) (ps : List Page) (y : Page) (out : Pool) (x : Page) (xs : List Page)
    → Trimmed (remove_page pool (x ∷ xs)) p ps y out
    → Trimmed pool p ps y out
unfolding remove_page
Trimmed-step pool p ps y out x xs t = record {
  pages = t.pages;
  balanced = t.balanced;
  base = t.base;
  reserved = t.reserved;
  used = t.used;
  wasted = t.wasted;
  count = t.count;
  page_size = t.page_size;
  allocds = t.allocds;
  levels = t.levels;
  allocd = t.allocd ∙ allocd-remove_page pool x xs;
}

pub pages-remove_page :
    (pool : Pool) (x : Page) (xs : List Page) → (remove_page pool (x ∷ xs)).pages ≡ xs
unfolding remove_page
pages-remove_page pool x xs = refl

pub Balanced-remove_page :
    (pool : Pool) (x : Page) (xs : List Page)
    → Balanced pool.page_size pool.space (x ∷ xs)
    → let q = remove_page pool (x ∷ xs) in Balanced q.page_size q.space xs
unfolding remove_page
Balanced-remove_page pool x xs b = remove_page-Balanced pool x xs b

pub count-remove_page :
    (pool : Pool) (x : Page) (xs : List Page)
    → pool.page_count ≡ length (x ∷ xs) % 2 ^ 64
    → (remove_page pool (x ∷ xs)).page_count ≡ length xs % 2 ^ 64
unfolding remove_page
count-remove_page pool x xs c = omega arith

-- The loop takes away just the newer pages.
pub remove_until-Trimmed :
    (p : Page) (ps : List Page) {xs : List Page}
    → Grown p ps xs
    → (pool : Pool) → pool.pages ≡ xs
    → Balanced pool.page_size pool.space xs
    → pool.page_count ≡ length xs % 2 ^ 64
    → (x : Page) × (out : Pool) × (remove_until (some p.base) pool xs ≡ some out)
      × Trimmed pool p ps x out
unfolding remove_until
remove_until-Trimmed p ps (more {x = x} eb er eu ew) pool e b c = (
  x,
  pool,
  ground arith,
  record {
    pages = e;
    balanced = b;
    base = eb;
    reserved = er;
    used = eu;
    wasted = ew;
    count = c;
    page_size = refl;
    allocds = refl;
    levels = refl;
    allocd = refl;
  },
)
remove_until-Trimmed p ps (newer {x = x} {xs = xs} ne g) pool e b c =
    let (y, out, eq, t) =
      remove_until-Trimmed p ps g (remove_page pool (x ∷ xs)) (pages-remove_page pool x xs)
        (Balanced-remove_page pool x xs b) (count-remove_page pool x xs c) in
    (y, out, ground (arith, eq), Trimmed-step pool p ps y out x xs t)

-- A pool with blocks `bs` only.
abbrev pub with_blocks : Pool → List Allocd → Pool
with_blocks pool bs = record pool {
  allocds = bs;
  space = record (pool.space) { allocd = sum_allocd bs % 2 ^ 64 };
}

free_until-here :
    (bs : List Allocd) (stop : Option ℕ) (pool : Pool)
    → last_allocd bs ≡ stop
    → free_until stop pool bs ≡ some pool
unfolding free_until
free_until-here [] stop pool e = rw (← e)
free_until-here (b ∷ bs) stop pool e = rw (← e, ==_refl)

same_ptr-ne : (a : ℕ) (stop : Option ℕ) → some a ≢ stop → same_ptr (some a) stop ≡ false
same_ptr-ne a none ne = refl
same_ptr-ne a (some b) ne = ground (arith, λ (e : a ≡ b). ne (ap some e))

-- The loop frees just the newer blocks.
pub free_until-Piled :
    (stop : Option ℕ) (bs : List Allocd) {cs : List Allocd}
    → Piled stop bs cs
    → (pool : Pool) → last_allocd bs ≡ stop
    → pool.allocds ≡ cs
    → All IsSized cs
    → pool.space.allocd ≡ sum_allocd cs % 2 ^ 64
    → free_until stop pool cs ≡ some (with_blocks pool bs)
unfolding free_until free_last
free_until-Piled stop bs same pool at e z s = ground (arith, free_until-here bs stop pool at)
free_until-Piled stop bs (newer {b = b} {cs = cs} ne g) pool at e z s =
    rw (same_ptr-ne b.addr stop ne) (
      free_until-Piled stop bs g
        (record pool {
          allocds = cs;
          space = record (pool.space) { allocd = sub64 pool.space.allocd b.size };
        })
        at refl z.1 (omega arith))
