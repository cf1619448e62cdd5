-- ===== src/Pool/Empty.antt =====
-- src/pool.c: `shuso_pool_init`, `shuso_pool_empty`, `shuso_pool_space`, and what draining leaves.
use shuttlesock.Base.{
  ℕ, ◌+◌, ◌*◌, ◌%◌, ◌^◌, ◌<◌, ◌≡◌, refl, subst, ap, ◌∙◌, true, false, none, some, List, [], ◌∷◌,
  arith, length, All, if◌then◌else◌, ◌==◌, Bool,
}
use shuttlesock.Pool.{Page, Allocd, Pool, Malloc, zeroed, remove_page, add_page}
use shuttlesock.Pool.Alloc.{
  remove_until, empty, drain_to_level, pool_space, space_free, space_used, space_wasted,
  space_reserved,
}
use shuttlesock.Pool.Books.{PageFits, Balanced, sum_used, sum_reserved, sum_wasted, rest}
use shuttlesock.Pool.Region.{Sound}
use shuttlesock.Pool.Levels.{
  Piled, with_blocks, free_until-Piled, pages-remove_page, allocd-remove_page, Balanced-remove_page,
  count-remove_page,
}

-- A page's worth of books for each page.
sums_total :
    (size : ℕ) (p : Page) (ps : List Page)
    → All (PageFits size) (p ∷ ps)
    → sum_used (p ∷ ps) + sum_reserved (p ∷ ps) + sum_wasted size (p ∷ ps) + rest size (p ∷ ps)
      ≡ size * length (p ∷ ps)
sums_total size p [] (f, g) = omega arith
sums_total size p (q ∷ ps) (f, g) = omega (arith, sums_total size q ps g)

-- The free, used, wasted and reserved space that a pool reports make up its pages.
pub pool_space_total :
    (pool : Pool) (p : Page) (ps : List Page)
    → pool.pages ≡ p ∷ ps
    → Sound pool
    → pool.page_size * length pool.pages < 2 ^ 64
    → pool_space pool space_used
        + pool_space pool space_reserved
        + pool_space pool space_wasted
        + pool_space pool space_free
      ≡ pool.page_size * length pool.pages
unfolding pool_space
pool_space_total pool p ps e s small =
    let b : Balanced pool.page_size pool.space (p ∷ ps) = subst (Balanced _ _) e s.books.balanced in
    let n = ap length e in
    let total = sums_total pool.page_size p ps b.fits in
    let t : pool.page_size * length pool.pages ≡ pool.page_size * length (p ∷ ps) =
      ap (λ k. pool.page_size * length k) e in
    omega (arith, total, b.used, b.reserved, b.wasted, b.free, t)

-- a pool of pages of `size` bytes that has none yet
abbrev blank : ℕ → Pool
blank size = record zeroed { page_size = size }

-- The size of the pages of a pool that is set up with `pagesize`, 0 asking for pages of the system's size
abbrev pub size_of : (system_page_size pagesize : ℕ) → ℕ
size_of system_page_size pagesize = if pagesize == 0 then system_page_size else pagesize

module _ (system_page_size pagesize : ℕ) (malloc : Malloc) where
  init_from : (size : ℕ) → Bool × Pool
  init_from size = elim (add_page (blank size) malloc) [
    | none ↦ (false, blank size)
    | some pool ↦ (true, pool)
  ]

-- The pool that the loops of `shuso_pool_empty` leave.
pub record Emptied (out : Pool) : Type 0 where
  pub pages : out.pages ≡ []
  pub allocds : out.allocds ≡ []
  pub count : out.page_count ≡ 0
  pub used : out.space.used ≡ 0
  pub reserved : out.space.reserved ≡ 0
  pub wasted : out.space.wasted ≡ 0
  pub free : out.space.free ≡ 0
  pub allocd : out.space.allocd ≡ 0

Piled-all : (cs : List Allocd) → Piled none [] cs
Piled-all [] = Piled.same
Piled-all (b ∷ cs) = Piled.newer (λ e. cc) (Piled-all cs)

remove_all :
    (pool : Pool) (xs : List Page)
    → pool.pages ≡ xs
    → pool.allocds ≡ []
    → pool.space.allocd ≡ 0
    → Balanced pool.page_size pool.space xs
    → pool.page_count ≡ length xs % 2 ^ 64
    → (out : Pool) × (remove_until none pool xs ≡ some out) × Emptied out
unfolding remove_until
remove_all pool [] e f g b c = (
  pool,
  refl,
  record {
    pages = e;
    allocds = f;
    count = omega arith;
    used = omega (arith, b.used);
    reserved = omega (arith, b.reserved);
    wasted = omega (arith, b.wasted);
    free = omega (arith, b.free);
    allocd = g;
  },
)
remove_all pool (x ∷ xs) e f g b c =
    remove_all (remove_page pool (x ∷ xs)) xs (pages-remove_page pool x xs) (allocds-remove_page f)
      (allocd-remove_page pool x xs ∙ g) (Balanced-remove_page pool x xs b)
      (count-remove_page pool x xs c)
  where
    allocds-remove_page : pool.allocds ≡ [] → (remove_page pool (x ∷ xs)).allocds ≡ []
    allocds-remove_page h = unfold remove_page in h

-- Emptying a sound pool never crashes, gives back every page and every block, and takes each of
-- its accounts to 0.
pub empty-Emptied :
    (pool : Pool) → Sound pool → (out : Pool) × (empty pool ≡ some out) × Emptied out
unfolding empty
empty-Emptied pool s =
    let freed =
      free_until-Piled none [] (Piled-all pool.allocds) pool refl refl s.books.sized
        s.books.allocd in
    let (out, eq, em) =
      remove_all (with_blocks pool []) pool.pages refl refl (omega arith)
        (record {
          fits = s.books.balanced.fits;
          used = s.books.balanced.used;
          reserved = s.books.balanced.reserved;
          wasted = s.books.balanced.wasted;
          free = s.books.balanced.free;
        })
        s.books.count in
    (out, rw freed eq, em)

-- So draining a sound pool to level 0 always succeeds, and leaves a pool of zero bytes throughout.
pub drain-zero : (pool : Pool) → Sound pool → drain_to_level pool 0 ≡ some (true, zeroed)
unfolding drain_to_level
drain-zero pool s = let (out, eq, em) = empty-Emptied pool s in ground (arith, eq)
