-- ===== src/Llist/Remove.antt =====
-- src/include/shuttlesock/llist.h: what is left of a list from which a link is removed.
use shuttlesock.Base.{
  ℕ, ◌^◌, ◌<◌, ◌≡◌, ◌≢◌, refl, sym, ap, subst, ◌∙◌, List, [], ◌∷◌, ◌++◌, sub64, length, NotIn,
  last_of_ne, head_of, arith,
}
use shuttlesock.Llist.{Node, Llist, set_node_prev, set_node_next, llist_remove, Chain, IsList}
use shuttlesock.Llist.Append.{Agree, Chain-Agree}

next-Chain : (m : ℕ → Node) (p a : ℕ) (xs : List ℕ) → Chain m p a xs → a ≡ head_of xs
next-Chain m p a [] c = c
next-Chain m p a (x ∷ xs) (e, nz, before, c) = e

-- what follows a link of a list
next_of :
    (m : ℕ → Node) (p f a : ℕ) (zs ys : List ℕ)
    → Chain m p f (zs ++ a ∷ ys)
    → (m a).next ≡ head_of ys
next_of m p f a [] ys (e, nz, before, c) = next-Chain m a (m a).next ys c
next_of m p f a (z ∷ zs) ys (e, nz, before, c) = next_of m z (m z).next a zs ys c

head-nonzero : (m : ℕ → Node) (p f a : ℕ) (zs ys : List ℕ) → Chain m p f (zs ++ a ∷ ys) → f ≢ 0
head-nonzero m p f a [] ys (e, nz, before, c) = λ z. nz (sym e ∙ z)
head-nonzero m p f a (x ∷ zs) ys (e, nz, before, c) = λ z. nz (sym e ∙ z)

head-remove : (ll : Llist) (a : ℕ) → ll.head ≢ 0 → (llist_remove ll a).head ≡ (ll.mem a).next
unfolding llist_remove
head-remove ll a nz = ground (arith, nz)

count-remove : (ll : Llist) (a : ℕ) → (llist_remove ll a).count ≡ sub64 ll.count 1
unfolding llist_remove
count-remove ll a = ground arith

-- After a link is removed the list begins with what followed that link, wherever it stood: the
-- links before it are lost, though the count is only one less.
pub head-llist_remove :
    (ll : Llist) (zs ys : List ℕ) (a : ℕ)
    → IsList ll (zs ++ a ∷ ys)
    → ((llist_remove ll a).head ≡ head_of ys)
      × ((llist_remove ll a).count ≡ sub64 (length (zs ++ a ∷ ys)) 1)
head-llist_remove ll zs ys a q = (
  head-remove ll a (head-nonzero ll.mem 0 ll.head a zs ys q.chain)
      ∙ next_of ll.mem 0 ll.head a zs ys q.chain,
  count-remove ll a ∙ ap (λ n. sub64 n 1) q.counted,
)

removed_mem : (ℕ → Node) → ℕ → ℕ → ℕ → Node
removed_mem m y a = set_node_prev (set_node_next (set_node_prev m y 0) a 0) a 0

remove_only :
    (ll : Llist) (a : ℕ)
    → ll.head ≡ a
    → a ≢ 0
    → (ll.mem a).prev ≡ 0
    → (ll.mem a).next ≡ 0
    → ll.tail ≡ a
    → llist_remove ll a ≡ record {
      head = 0;
      tail = 0;
      count = sub64 ll.count 1;
      mem = set_node_prev (set_node_next ll.mem a 0) a 0;
    }
unfolding llist_remove
remove_only ll a h nz p n t = ground (arith, h, nz, p, n, t)

remove_first :
    (ll : Llist) (a y : ℕ)
    → ll.head ≡ a
    → a ≢ 0
    → (ll.mem a).prev ≡ 0
    → (ll.mem a).next ≡ y
    → y ≢ 0
    → y ≢ a
    → ll.tail ≢ a
    → llist_remove ll a
      ≡ record { head = y; tail = ll.tail; count = sub64 ll.count 1; mem = removed_mem ll.mem y a }
unfolding llist_remove removed_mem
remove_first ll a y h nz p n ynz ne t = ground (arith, h, nz, p, n, ynz, ne, t)

removed-Agree :
    (m : ℕ → Node) (y a : ℕ) (xs : List ℕ)
    → NotIn y xs
    → NotIn a xs
    → Agree m (removed_mem m y a) xs
unfolding removed_mem
removed-Agree m y a [] n k = tt
removed-Agree m y a (x ∷ xs) (ne, ns) (k, ks) =
    ((ground (arith, ne, k), ground (arith, ne, k)), removed-Agree m y a xs ns ks)

removed-Chain :
    (m : ℕ → Node) (a y : ℕ) (ys : List ℕ)
    → Chain m a y (y ∷ ys)
    → NotIn a (y ∷ ys)
    → NotIn y ys
    → Chain (removed_mem m y a) 0 y (y ∷ ys)
unfolding removed_mem
removed-Chain m a y ys (e, nz, before, c) (ne, ns) n = (
  refl,
  nz,
  ground (arith, ne),
  subst (λ b. Chain (removed_mem m y a) y b ys) (ground (arith, ne))
      (Chain-Agree m (removed_mem m y a) y (m y).next ys (removed-Agree m y a ys n ns) c),
)

-- Removing the first link leaves the others.
pub llist_remove-IsList :
    (ll : Llist) (a : ℕ) (xs : List ℕ)
    → IsList ll (a ∷ xs)
    → length (a ∷ xs) < 2 ^ 64
    → IsList (llist_remove ll a) xs
llist_remove-IsList ll a [] q top =
    let (e, nz, before, c) = q.chain in
    subst (λ (b : Llist). IsList b []) (sym (remove_only ll a e nz before c q.last))
      (record { chain = refl; last = refl; counted = omega (arith, q.counted); distinct = tt })
llist_remove-IsList ll a (y ∷ ys) q top =
    let (e, nz, before, (f, ynz, back, c)) = q.chain in
    let (n, d) = q.distinct in
    let lna = last_of_ne a y ys n in
    subst (λ (b : Llist). IsList b (y ∷ ys))
      (sym (remove_first ll a y e nz before f ynz n.0 (λ z. lna (sym q.last ∙ z))))
      (record {
        chain = removed-Chain ll.mem a y ys (refl, ynz, back, c) n d.0;
        last = q.last;
        counted = omega (arith, q.counted, top);
        distinct = d;
      })
