-- ===== src/Pool/Mark.antt =====
-- src/pool.c: `shuso_pool_mark_level`, allocations, and `shuso_pool_drain_to_level`.
use shuttlesock.Base.{
  ℕ, ◌+◌, ◌^◌, ◌≤◌, ◌<◌, ◌≡◌, refl, ◌≢◌, ap, ◌∙◌, Bool, Option, some, List, [], ◌∷◌, arith, All,
  bind_crash,
}
use shuttlesock.Pool.{Page, Pool, Malloc, link_page, update_space}
use shuttlesock.Pool.Alloc.{palloc_with_alignment, last_page, last_allocd}
use shuttlesock.Pool.Books.{PageFits}
use shuttlesock.Pool.Place.{placed, taken, taken_page}
use shuttlesock.Pool.Outcome.{
  IsMalloc, fresh_page, own_block, Ends, palloc-Ends, in_last, in_fresh, in_own, refused,
}
use shuttlesock.Pool.Region.{Sound, ends, palloc-Sound, placed-ge}
use shuttlesock.Pool.Levels.{Grown, Piled}
use shuttlesock.Pool.Drain.{Later}

-- A call of `shuso_palloc` or `shuso_palloc_unaligned`, with the answers of `malloc`.
pub record Request : Type 0 where
  pub size : ℕ
  pub align : Bool
  pub page_mem : Malloc
  pub own_mem : Malloc

-- The calls in order.
pub run : Pool → List Request → Option Pool
run pool [] = some pool
run pool (c ∷ cs) =
    bind_crash (palloc_with_alignment pool c.size c.align c.page_mem c.own_mem)
      (λ (r, pool'). run pool' cs)

-- A sensible size, and an allocator that gives out blocks, none of them the last page or the last
-- block that `q` holds.
pub record IsGood (q : Pool) (c : Request) : Type 0 where
  pub small : c.size < 2 ^ 62
  pub page_block : IsMalloc c.page_mem
  pub own_block : IsMalloc c.own_mem
  pub page_fresh : (size a : ℕ) → c.page_mem size ≡ some a → some a ≢ last_page q.pages
  pub own_fresh : (size a : ℕ) → c.own_mem size ≡ some a → some a ≢ last_allocd q.allocds

Grown-taken :
    (p : Page) (ps : List Page) (y y' : Page) {ys : List Page}
    → Grown p ps (y ∷ ys)
    → y'.base ≡ y.base
    → y'.space.reserved ≡ y.space.reserved
    → y.space.used ≤ y'.space.used
    → y.space.wasted ≤ y'.space.wasted
    → Grown p ps (y' ∷ ys)
Grown-taken p ps y y' (Grown.more a b c d) e f g h =
    Grown.more (e ∙ a) (f ∙ b) (omega arith) (omega arith)
Grown-taken p ps y y' (Grown.newer ne gr) e f g h = Grown.newer (λ k. ne (cc)) gr

-- What `taken_page` adds does not wrap.
taken_page-ge :
    (y : Page) (size sz : ℕ) (align : Bool)
    → PageFits size y
    → placed align y.space.cur + sz ≤ y.base + size
    → (y.space.used ≤ (taken_page y sz align).space.used)
      × (y.space.wasted ≤ (taken_page y sz align).space.wasted)
taken_page-ge y size sz align f room =
    (omega (arith, placed-ge align y.space.cur), omega (arith, placed-ge align y.space.cur))

pub Grown-cons :
    (p : Page) (ps : List Page) {xs : List Page}
    → Grown p ps xs
    → (y : Page) × (ys : List Page) × (xs ≡ y ∷ ys)
Grown-cons p ps (Grown.more {x = x} a b c d) = (x, ps, refl)
Grown-cons p ps (Grown.newer {x = x} {xs = xs} ne g) = (x, xs, refl)

module _ (q : Pool) (p : Page) (ps : List Page) (e : q.pages ≡ p ∷ ps) (r : Pool)
    (l : Later q p ps r) where
  open l use {sound}

  taken-Later :
      (y : Page) (ys : List Page) (sz : ℕ) (align : Bool)
      → r.pages ≡ y ∷ ys
      → Sound (taken r y ys sz align)
      → placed align y.space.cur + sz ≤ y.base + r.page_size
      → Later q p ps (taken r y ys sz align)
  unfolding update_space
  taken-Later y ys sz align eq s room =
      let fits : PageFits r.page_size y = ground (arith, sound.books.balanced.fits) in
      let ge = taken_page-ge y r.page_size sz align fits room in
      record {
        sound = s;
        page_size = l.page_size;
        pages = Grown-taken p ps y (taken_page y sz align) (rw eq at l.pages) refl refl ge.0 ge.1;
        allocds = l.allocds;
        levels = l.levels;
      }

  fresh-Later :
      (a sz : ℕ) (align : Bool)
      → a ≢ p.base
      → Sound (taken (link_page r a) (fresh_page a) r.pages sz align)
      → Later q p ps (taken (link_page r a) (fresh_page a) r.pages sz align)
  unfolding update_space link_page
  fresh-Later a sz align ne s = record {
    sound = s;
    page_size = l.page_size;
    pages = Grown.newer ne l.pages;
    allocds = l.allocds;
    levels = l.levels;
  }

  own-Later :
      (a sz : ℕ)
      → some a ≢ last_allocd q.allocds
      → Sound (own_block r sz a)
      → Later q p ps (own_block r sz a)
  own-Later a sz ne s = record {
    sound = s;
    page_size = l.page_size;
    pages = l.pages;
    allocds = Piled.newer ne l.allocds;
    levels = l.levels;
  }

  module _ (c : Request) (g : IsGood q c) (o : Option ℕ) (r' : Pool)
      (eq : palloc_with_alignment r c.size c.align c.page_mem c.own_mem ≡ some (o, r')) where
    at_p : some p.base ≡ last_page q.pages
    at_p = rw e

    pub call-Later : Later q p ps r'
    call-Later =
        let (y, ys, ey) = Grown-cons p ps l.pages in
        let s' =
          palloc-Sound r sound y ys ey c.page_mem c.own_mem g.page_block g.own_block c.size c.align
            g.small o r' eq in
        elim (ends r sound y ys ey c.page_mem c.own_mem g.page_block g.own_block c.size c.align
          g.small o r' eq) [
            | in_last room res ↦
                let t : r' ≡ taken r y ys c.size c.align = cc in
                rw t (taken-Later y ys c.size c.align ey (rw t at s') room)
            | in_fresh a over room mem res ↦
                let t : r' ≡ taken (link_page r a) (fresh_page a) r.pages c.size c.align = cc in
                rw t (
                  fresh-Later a c.size c.align (λ k. g.page_fresh _ a mem (ap some k ∙ at_p))
                    (rw t at s'))
            | in_own a over why mem res ↦
                let t : r' ≡ own_block r c.size a = cc in
                rw t (own-Later a c.size (g.own_fresh _ a mem) (rw t at s'))
            | refused over why mem res ↦ let t : r' ≡ r = cc in rw t l
          ]

Ends-result :
    {pool : Pool} {p : Page} {ps : List Page} {sz : ℕ} {align : Bool} {page_mem own_mem : Malloc}
    {res : Option (Option ℕ × Pool)}
    → Ends pool p ps sz align page_mem own_mem res
    → (o : Option ℕ) × (q : Pool) × (res ≡ some (o, q))
Ends-result (in_last a b) = (_, _, b)
Ends-result (in_fresh a b c d e) = (_, _, e)
Ends-result (in_own a b c d e) = (_, _, e)
Ends-result (refused a b c d) = (_, _, d)

module _ (q : Pool) (p : Page) (ps : List Page) (e : q.pages ≡ p ∷ ps) where
  call_total :
      (r : Pool)
      → Later q p ps r
      → (c : Request) → IsGood q c
      → (o : Option ℕ) × (r' : Pool) × (palloc_with_alignment r c.size c.align c.page_mem c.own_mem
          ≡ some (o, r'))
  call_total r l c g =
      let (y, ys, ey) = Grown-cons p ps l.pages in
      Ends-result (
        palloc-Ends r y ys ey l.sound.books l.sound.synced l.sound.room c.page_mem c.own_mem
          g.page_block g.own_block c.size c.align g.small)

  -- Good calls do not crash, and only add.
  pub run-Later :
      (cs : List Request) (r : Pool)
      → All (IsGood q) cs
      → Later q p ps r
      → (r' : Pool) × (run r cs ≡ some r') × Later q p ps r'
  unfolding run
  run-Later [] r g l = (r, refl, l)
  run-Later (c ∷ cs) r g l =
      let (o, r1, eq) = call_total r l c g.0 in
      let (r', eq', l') = run-Later cs r1 g.1 (call-Later q p ps e r l c g.0 o r1 eq) in
      (r', rw eq eq', l')
