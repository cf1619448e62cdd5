-- ===== src/Llist/Append.antt =====
-- src/include/shuttlesock/llist.h: what links are added to a list, at its end and at its start.
use shuttlesock.Base.{
  ℕ, ◌+◌, ◌^◌, ◌<◌, ◌≡◌, ◌≢◌, ◌⊎◌, inl, inr, refl, sym, subst, ◌∙◌, List, [], ◌∷◌, ◌++◌, add64,
  length, length-append, Distinct, NotIn, last_of, last_of_ne, last_of-append, Distinct-append,
  arith, All,
}
use shuttlesock.Llist.{
  Node, Llist, set_node_prev, set_node_next, llist_prepend, llist_append, Chain, IsList,
}

-- Two memories hold the same at the addresses of a list.
abbrev pub Agree : (m m' : ℕ → Node) → List ℕ → Type 0
Agree m m' xs = All (λ x. ((m' x).prev ≡ (m x).prev) × ((m' x).next ≡ (m x).next)) xs

pub Chain-Agree :
    (m m' : ℕ → Node) (p a : ℕ) (xs : List ℕ) → Agree m m' xs → Chain m p a xs → Chain m' p a xs
Chain-Agree m m' p a [] h c = c
Chain-Agree m m' p a (x ∷ xs) ((hp, hn), hs) (e, nz, before, rest) = (
  e,
  nz,
  hp ∙ before,
  subst (λ b. Chain m' x b xs) (sym hn) (Chain-Agree m m' x (m x).next xs hs rest),
)

-- A memory that is changed at `a` only, where `a` is not on the list.
Agree-but_one :
    (m m' : ℕ → Node) (a : ℕ) (xs : List ℕ)
    → NotIn a xs
    → ((x : ℕ) → x ≢ a → ((m' x).prev ≡ (m x).prev) × ((m' x).next ≡ (m x).next))
    → Agree m m' xs
Agree-but_one m m' a [] n h = tt
Agree-but_one m m' a (x ∷ xs) (ne, ns) h = (h x ne, Agree-but_one m m' a xs ns h)

-- What an append writes behind the last link, `l`.
record Appended (m m' : ℕ → Node) (l a : ℕ) : Type 0 where
  prev_kept : (x : ℕ) → x ≢ a → (m' x).prev ≡ (m x).prev
  next_kept : (x : ℕ) → x ≢ a → x ≢ l → (m' x).next ≡ (m x).next
  linked : (m' l).next ≡ a
  back : (m' a).prev ≡ l
  end : (m' a).next ≡ 0

Chain-append :
    (m m' : ℕ → Node) (p f a x : ℕ) (xs : List ℕ)
    → Appended m m' (last_of (x ∷ xs)) a
    → Chain m p f (x ∷ xs)
    → Distinct (x ∷ xs)
    → NotIn a (x ∷ xs)
    → a ≢ 0
    → Chain m' p f (x ∷ xs ++ a ∷ [])
Chain-append m m' p f a x [] w (e, nz, before, c) d (ne, _) anz =
    (e, nz, w.prev_kept x ne ∙ before, (w.linked, anz, w.back, w.end))
Chain-append m m' p f a x (y ∷ ys) w (e, nz, before, c) (nin, d) (ne, ns) anz =
    let keep = w.next_kept x ne (λ q. last_of_ne x y ys nin (sym q)) in
    (
      e,
      nz,
      w.prev_kept x ne ∙ before,
      subst (λ b. Chain m' x b (y ∷ ys ++ a ∷ [])) (sym keep)
          (Chain-append m m' x (m x).next a y ys w c d ns anz),
    )

abbrev appended_mem : (ℕ → Node) → ℕ → ℕ → ℕ → Node
appended_mem m l a = set_node_next (set_node_prev (set_node_next m l a) a l) a 0

appended : (m : ℕ → Node) (l a : ℕ) → l ≢ a → Appended m (appended_mem m l a) l a
appended m l a ne = record {
  prev_kept = λ x h. ground (arith, h);
  next_kept = λ x h k. ground (arith, h, k);
  linked = ground (arith, ne);
  back = ground (arith, ne);
  end = ground (arith, ne);
}

llist_append_more :
    (ll : Llist) (a : ℕ)
    → ll.tail ≢ 0
    → llist_append ll a
      ≡ record ll { tail = a; count = add64 ll.count 1; mem = appended_mem ll.mem ll.tail a }
unfolding llist_append
llist_append_more ll a nz = ground (arith, nz)

llist_append_none :
    (ll : Llist) (a : ℕ)
    → ll.tail ≡ 0
    → llist_append ll a ≡ record {
      head = a;
      tail = a;
      count = add64 ll.count 1;
      mem = set_node_next (set_node_prev ll.mem a 0) a 0;
    }
unfolding llist_append
llist_append_none ll a z = ground (arith, z)

last_of-nonzero :
    (m : ℕ → Node) (p f x : ℕ) (xs : List ℕ) → Chain m p f (x ∷ xs) → last_of (x ∷ xs) ≢ 0
last_of-nonzero m p f x [] (e, nz, before, c) = nz
last_of-nonzero m p f x (y ∷ ys) (e, nz, before, c) = last_of-nonzero m x (m x).next y ys c

last_of-NotIn : (a x : ℕ) (xs : List ℕ) → NotIn a (x ∷ xs) → last_of (x ∷ xs) ≢ a
last_of-NotIn a x xs n = last_of_ne a x xs n

-- Appending a link that is not in the list puts it behind the others.
pub llist_append-IsList :
    (ll : Llist) (xs : List ℕ) (a : ℕ)
    → IsList ll xs
    → NotIn a xs
    → a ≢ 0
    → length xs + 1 < 2 ^ 64
    → IsList (llist_append ll a) (xs ++ a ∷ [])
llist_append-IsList ll [] a q n anz top =
    subst (λ (b : Llist). IsList b (a ∷ [])) (sym (llist_append_none ll a q.last))
      (record {
        chain = (refl, anz, ground arith, ground arith);
        last = refl;
        counted = omega (arith, q.counted);
        distinct = (tt, tt);
      })
llist_append-IsList ll (x ∷ xs) a q n anz top =
    let l = q.last in
    let lnz = last_of-nonzero ll.mem 0 ll.head x xs q.chain in
    let lna = last_of_ne a x xs n in
    subst (λ (b : Llist). IsList b (x ∷ xs ++ a ∷ []))
      (sym (llist_append_more ll a (λ z. lnz (sym l ∙ z))))
      (record {
        chain =
            subst (λ k. Chain (appended_mem ll.mem k a) 0 ll.head (x ∷ xs ++ a ∷ [])) (sym l)
              (Chain-append ll.mem _ 0 ll.head a x xs (appended ll.mem _ a lna) q.chain q.distinct n
                anz);
        last = sym (last_of-append (x ∷ xs) a);
        counted = omega (arith, q.counted, top, length-append (x ∷ xs) (a ∷ []));
        distinct = Distinct-append (x ∷ xs) a q.distinct n;
      })

abbrev prepended_mem : (ℕ → Node) → ℕ → ℕ → ℕ → Node
prepended_mem m h a = set_node_prev (set_node_next (set_node_prev m h a) a h) a 0

llist_prepend_more :
    (ll : Llist) (a : ℕ)
    → ll.head ≢ 0
    → ll.tail ≢ 0
    → llist_prepend ll a
      ≡ record ll { head = ll.head; count = add64 ll.count 1; mem = prepended_mem ll.mem ll.head a }
unfolding llist_prepend
llist_prepend_more ll a nz tz = ground (arith, nz, tz)

llist_prepend_none :
    (ll : Llist) (a : ℕ)
    → ll.head ≡ 0
    → ll.tail ≡ 0
    → llist_prepend ll a ≡ record {
      head = a;
      tail = a;
      count = add64 ll.count 1;
      mem = set_node_prev (set_node_next ll.mem a 0) a 0;
    }
unfolding llist_prepend
llist_prepend_none ll a z t = ground (arith, z, t)

prepended-Agree :
    (m : ℕ → Node) (h a : ℕ) (xs : List ℕ)
    → NotIn h xs
    → NotIn a xs
    → Agree m (prepended_mem m h a) xs
prepended-Agree m h a [] n k = tt
prepended-Agree m h a (x ∷ xs) (ne, ns) (k, ks) =
    ((ground (arith, ne, k), ground (arith, ne, k)), prepended-Agree m h a xs ns ks)

-- Prepending to an empty list gives the list of the link alone. To a list with links in it, it adds
-- one to the count and ties the link to the first one, but the list still begins with the links
-- that it had.
pub llist_prepend-Chain :
    (ll : Llist) (xs : List ℕ) (a : ℕ)
    → IsList ll xs
    → NotIn a xs
    → a ≢ 0
    → length xs + 1 < 2 ^ 64
    → let r = llist_prepend ll a in
      ((xs ≡ []) × IsList r (a ∷ []))
      ⊎ ((r.head ≡ ll.head)
          × Chain r.mem a r.head xs
          × (r.count ≡ length xs + 1)
          × ((r.mem a).next ≡ ll.head))
llist_prepend-Chain ll [] a q n anz top = inl (
  refl,
  subst (λ (b : Llist). IsList b (a ∷ [])) (sym (llist_prepend_none ll a q.chain q.last))
      (record {
        chain = (refl, anz, ground arith, ground arith);
        last = refl;
        counted = omega (arith, q.counted);
        distinct = (tt, tt);
      }),
)
llist_prepend-Chain ll (x ∷ xs) a q (ne, ns) anz top =
    let (e, nz, before, c) = q.chain in
    let lnz = last_of-nonzero ll.mem 0 ll.head x xs q.chain in
    let r = llist_prepend_more ll a (λ z. nz (sym e ∙ z)) (λ z. lnz (sym q.last ∙ z)) in
    inr (
      subst
        (λ (r : Llist).
          (r.head ≡ ll.head)
          × Chain r.mem a r.head (x ∷ xs)
          × (r.count ≡ length (x ∷ xs) + 1)
          × ((r.mem a).next ≡ ll.head))
        (sym r)
        (
          refl,
          (
            e,
            nz,
            ground (arith, e, ne),
            subst (λ b. Chain (prepended_mem ll.mem ll.head a) x b xs) (ground (arith, e, ne))
                (Chain-Agree ll.mem (prepended_mem ll.mem ll.head a) x (ll.mem x).next xs
                  (subst (λ h. Agree ll.mem (prepended_mem ll.mem h a) xs) (sym e)
                    (prepended-Agree ll.mem x a xs q.distinct.0 ns))
                  c),
          ),
          omega (arith, q.counted, top),
          ground (arith, e, ne),
        ))
