-- ===== src/Pool/Drain.antt =====
-- src/pool.c: `shuso_pool_drain_to_level` takes a pool back to where a level was marked.
use shuttlesock.Base.{
  ℕ, ◌≤◌, ◌≡◌, refl, ap, true, some, List, [], ◌∷◌, arith, if◌then◌else◌, add64, sub64,
}
use shuttlesock.Pool.{Page, Allocd, Pool}
use shuttlesock.Pool.Alloc.{
  restore_page, last_allocd, snapshot, has_ptr, drain_allocds, drain_pages, drain_level, free_until,
  remove_until,
}
use shuttlesock.Pool.Books.{PageFits, Balanced, sum_lost}
use shuttlesock.Pool.Region.{Sound}
use shuttlesock.Pool.Levels.{
  Grown, Piled, Trimmed, remove_until-Trimmed, with_blocks, free_until-Piled,
}

-- The pool `r` has come from `q`, of last page `p`, by allocations.
pub record Later (q : Pool) (p : Page) (ps : List Page) (r : Pool) : Type 0 where
  pub sound : Sound r
  pub page_size : r.page_size ≡ q.page_size
  pub pages : Grown p ps r.pages
  pub allocds : Piled (last_allocd q.allocds) q.allocds r.allocds
  pub levels : r.levels ≡ q.levels

module _ (q : Pool) (s : Sound q) (p : Page) (ps : List Page) (e : q.pages ≡ p ∷ ps) where
  fits : PageFits q.page_size p
  fits = ground (arith, s.books.balanced.fits)

  at_last : q.page_cur ≡ p.space.cur
  at_last = ground (arith, s.synced)

  q-Balanced : Balanced q.page_size q.space (p ∷ ps)
  q-Balanced = rw e at s.books.balanced

  module _ (size : ℕ) (x : Page) (out : Pool) (b : Balanced size out.space (x ∷ ps))
      (z : size ≡ q.page_size) (base : x.base ≡ p.base)
      (reserved : x.space.reserved ≡ p.space.reserved) (used : p.space.used ≤ x.space.used)
      (wasted : p.space.wasted ≤ x.space.wasted) where
    used_back : sub64 out.space.used (sub64 x.space.used p.space.used) ≡ q.space.used
    used_back =
        omega (arith, b.used, q-Balanced.used, b.fits.0.filled, b.fits.0.inside, b.fits.0.top)

    wasted_back : sub64 out.space.wasted (sub64 x.space.wasted p.space.wasted) ≡ q.space.wasted
    wasted_back = omega (
      arith,
      ap (λ n. sum_lost n ps) z,
      b.wasted,
      q-Balanced.wasted,
      b.fits.0.filled,
      b.fits.0.inside,
      b.fits.0.top,
    )

    free_back :
        add64 out.space.free
          (add64 (sub64 x.space.used p.space.used) (sub64 x.space.wasted p.space.wasted))
        ≡ q.space.free
    free_back = omega (
      arith, b.free, q-Balanced.free, b.fits.0.filled, b.fits.0.inside, b.fits.0.top, fits.filled,
      fits.inside,
    )

    reserved_back : out.space.reserved ≡ q.space.reserved
    reserved_back = omega (arith, b.reserved, q-Balanced.reserved)

    -- The last page and the space are as they were.
    restored :
        restore_page (snapshot q) out (x ∷ ps)
        ≡ some
            (record out { space = record (q.space) { allocd = out.space.allocd }; pages = q.pages })
    unfolding restore_page
    restored = ground (arith, e, used_back, wasted_back, free_back, reserved_back)

  module _ (r : Pool) (l : Later q p ps r) where
    -- the pages of the mark, and the blocks that the pool has
    back_with_blocks : Pool
    back_with_blocks = record q {
      allocds = r.allocds;
      levels = r.levels;
      space = record (q.space) { allocd = r.space.allocd };
    }

    after_trim :
        (x : Page) (out : Pool)
        → remove_until (some p.base) r r.pages ≡ some out
        → Trimmed r p ps x out
        → drain_pages (snapshot q) r ≡ some back_with_blocks
    unfolding drain_pages back_with_blocks
    after_trim x out eq t = ground (
      arith,
      e,
      eq,
      t,
      l.page_size,
      s.books.count,
      restored r.page_size x (record out { page_cur = q.page_cur }) t.balanced l.page_size t.base
          t.reserved t.used t.wasted,
    )

    drained_pages : drain_pages (snapshot q) r ≡ some back_with_blocks
    drained_pages =
        let (x, out, eq, t) =
          remove_until-Trimmed p ps l.pages r refl l.sound.books.balanced l.sound.books.count in
        after_trim x out eq t

    -- With other blocks, the pool is as late.
    with_blocks-Later : Later q p ps (with_blocks r q.allocds)
    with_blocks-Later = record {
      sound = record {
        books = record {
          small = l.sound.books.small;
          balanced = record {
            fits = l.sound.books.balanced.fits;
            used = l.sound.books.balanced.used;
            reserved = l.sound.books.balanced.reserved;
            wasted = l.sound.books.balanced.wasted;
            free = l.sound.books.balanced.free;
          };
          sized = s.books.sized;
          allocd = refl;
          count = l.sound.books.count;
        };
        synced = l.sound.synced;
        room = l.sound.room;
      };
      page_size = l.page_size;
      pages = l.pages;
      allocds = Piled.same;
      levels = l.levels;
    }

    freed : free_until (last_allocd q.allocds) r r.allocds ≡ some (with_blocks r q.allocds)
    freed =
        free_until-Piled (last_allocd q.allocds) q.allocds l.allocds r refl refl l.sound.books.sized
          l.sound.books.allocd

-- The blocks of their own that a drain to the level marked at `q` leaves in `r`: those that `q`
-- had, or all that there are if `q` had none.
abbrev pub kept : (q r : Pool) → List Allocd
kept q r = if has_ptr (last_allocd q.allocds) then q.allocds else r.allocds

module _ (q : Pool) (s : Sound q) (p : Page) (ps : List Page) (e : q.pages ≡ p ∷ ps) (r : Pool)
    (l : Later q p ps r) where
  drained_cases :
      (bs : List Allocd)
      → q.allocds ≡ bs
      → drain_level (some (snapshot q)) r ≡ some (true, with_blocks q (kept q r))
  unfolding drain_level drain_allocds back_with_blocks
  drained_cases [] eq = ground (arith, drained_pages q s p ps e r l, l.levels, l.sound.books.allocd)
  drained_cases (b ∷ bs) eq = ground (
    arith,
    freed q s p ps e r l,
    drained_pages q s p ps e (with_blocks r q.allocds) (with_blocks-Later q s p ps e r l),
    l.levels,
  )

  pub drain_level_lem : drain_level (some (snapshot q)) r ≡ some (true, with_blocks q (kept q r))
  drain_level_lem = drained_cases q.allocds refl
