-- ===== src/Pool/Rollback.antt =====
-- src/pool.c: the round trip of marking a level, allocating, and draining to the level; and
-- emptying.
use shuttlesock.Base.{
  ℕ, ◌+◌, ◌-◌, ◌≡◌, refl, sym, subst, ◌≢◌, ap, ◌∙◌, Bool, true, Option, none, some, List, [], ◌∷◌,
  ◌++◌, arith, length, length-append, get_elem?, get_elem?-append_last, All,
}
use shuttlesock.Pool.{Page, Level, Pool, Malloc, sizeof_level}
use shuttlesock.Pool.Alloc.{
  palloc_with_alignment, palloc, snapshot, mark_level, drain_level, drain_to_level,
}
use shuttlesock.Pool.Region.{Sound}
use shuttlesock.Pool.Levels.{Grown, Piled, with_blocks}
use shuttlesock.Pool.Drain.{Later, kept, drain_level_lem}
use shuttlesock.Pool.Mark.{Request, run, IsGood, Grown-cons, call-Later, run-Later}

-- The pool with a level more, of what it is now.
abbrev pub marked : Pool → Pool
marked pool = record pool { levels = pool.levels ++ snapshot pool ∷ [] }

-- A mark that succeeds has made an allocation and then the level.
abbrev Marked : Pool → Malloc → Malloc → ℕ → Pool → Type 0
Marked pool page_mem own_mem n q =
    (o : Option ℕ) × (pool' : Pool) × (palloc_with_alignment pool sizeof_level true page_mem own_mem
      ≡ some (o, pool'))
    × (q ≡ marked pool')
    × (n ≡ length pool'.levels + 1)

mark_level-Marked :
    (pool : Pool) (page_mem own_mem : Malloc) (n : ℕ) (q : Pool)
    → mark_level pool page_mem own_mem ≡ some (n, q)
    → n ≢ 0
    → Marked pool page_mem own_mem n q
unfolding mark_level palloc
mark_level-Marked pool page_mem own_mem n q e ne =
    go (palloc_with_alignment pool sizeof_level true page_mem own_mem) refl
  where
    go :
        (res : Option (Option ℕ × Pool))
        → palloc_with_alignment pool sizeof_level true page_mem own_mem ≡ res
        → Marked pool page_mem own_mem n q
    go none h = absurd (ground (arith, h, e))
    go (some (none, pool')) h = absurd (ground (arith, h, e, ne))
    go (some (some a, pool')) h = (some a, pool', h, ground (arith, h, e), ground (arith, h, e))

Later-refl : (q : Pool) (p : Page) (ps : List Page) → q.pages ≡ p ∷ ps → Sound q → Later q p ps q
Later-refl q p ps e s = record {
  sound = s;
  page_size = refl;
  pages = rw e (Grown.more refl refl (omega arith) (omega arith));
  allocds = Piled.same;
  levels = refl;
}

marked-Sound : (q : Pool) → Sound q → Sound (marked q)
marked-Sound q s = record {
  books = record {
    small = s.books.small;
    balanced = s.books.balanced;
    sized = s.books.sized;
    allocd = s.books.allocd;
    count = s.books.count;
  };
  synced = s.synced;
  room = s.room;
}

-- A drain to the newest level is a drain to what that level holds.
drain_newest :
    (r : Pool) (ls : List Level) (l : Level)
    → r.levels ≡ ls ++ l ∷ []
    → drain_to_level r (length ls + 1) ≡ drain_level (some l) r
unfolding drain_to_level
drain_newest r ls l e =
    let i : length ls + 1 - 1 ≡ length ls = omega arith in
    let n : length (ls ++ l ∷ []) ≡ length ls + 1 = length-append ls (l ∷ []) in
    let at : get_elem? r.levels (length ls + 1 - 1) ≡ some l =
      rw (i, e) (get_elem?-append_last ls l) in
    let n' : length r.levels ≡ length ls + 1 = rw e n in ground arith

drain_marked :
    (pool' q r : Pool) (n : ℕ) (x : Option (Bool × Pool))
    → q ≡ marked pool'
    → n ≡ length pool'.levels + 1
    → r.levels ≡ q.levels
    → drain_level (some (snapshot q)) r ≡ x
    → drain_to_level r n ≡ x
drain_marked pool' q r n x eq_q eq_n lv d =
    let lv' : r.levels ≡ pool'.levels ++ snapshot pool' ∷ [] =
      lv ∙ ap (λ (t : Pool). t.levels) eq_q in
    let d' : drain_level (some (snapshot pool')) r ≡ x =
      subst (λ (t : Pool). drain_level (some (snapshot t)) r ≡ x) eq_q d in
    rw eq_n (drain_newest r pool'.levels (snapshot pool') lv' ∙ d')

module _ (pool : Pool) (s : Sound pool) (p : Page) (ps : List Page) (e : pool.pages ≡ p ∷ ps)
    (page_mem own_mem : Malloc)
    (good : IsGood pool
      (record { size = sizeof_level; align = true; page_mem = page_mem; own_mem = own_mem }))
    (n : ℕ) (q : Pool) (mark : mark_level pool page_mem own_mem ≡ some (n, q)) (ne : n ≢ 0) where
  -- Marking a level, allocating at will, and draining to that level's number never crashes, and
  -- gives back the pool as it was behind the mark: its pages, its cursor, its accounts and its
  -- levels. The blocks of their own are those of the mark too, if there were any, and else all
  -- that were made since: these are not freed.
  pub drain-mark :
      (cs : List Request)
      → All (IsGood q) cs
      → (r : Pool) × (run q cs ≡ some r)
        × (drain_to_level r n ≡ some (true, with_blocks q (kept q r)))
  drain-mark cs goods =
      let (o, pool', got, eq_q, eq_n) = mark_level-Marked pool page_mem own_mem n q mark ne in
      let l' = call-Later pool p ps e pool (Later-refl pool p ps e s) _ good o pool' got in
      let (y, ys, ey) = Grown-cons p ps l'.pages in
      let s_q : Sound q = subst Sound (sym eq_q) (marked-Sound pool' l'.sound) in
      let e_q : q.pages ≡ y ∷ ys = ap (λ (t : Pool). t.pages) eq_q ∙ ey in
      let (r, ran, later) = run-Later q y ys e_q cs q goods (Later-refl q y ys e_q s_q) in
      (
        r,
        ran,
        drain_marked pool' q r n _ eq_q eq_n later.levels (drain_level_lem q s_q y ys e_q r later),
      )
