-- ===== src/Llist.antt =====
-- src/include/shuttlesock/llist.h: a doubly linked list of links in memory, and its use for the timers of
-- a process in src/watchers.c. Addresses are numbers, NULL being 0.
pub mod Append
pub mod Remove
pub mod Timers
mod Tests
use shuttlesock.Base.{
  ℕ, ◌+◌, ◌^◌, ◌≡◌, ◌≢◌, Bool, true, false, List, [], ◌∷◌, ◌==◌, if◌then◌else◌, add64, sub64,
  length, Distinct, last_of,
}

-- `LLIST_TYPEDEF_LINK_STRUCT`, without the data
pub record Node : Type 0 where
  pub prev : ℕ
  pub next : ℕ

-- `LLIST_STRUCT`, and the memory in which the links lie
pub record Llist : Type 0 where
  pub head : ℕ
  pub tail : ℕ
  pub count : ℕ
  pub mem : ℕ → Node

-- a->prev = b, a->next = b
abbrev pub set_node_prev : (ℕ → Node) → ℕ → ℕ → ℕ → Node
set_node_prev m a b x = if x == a then record (m x) { prev = b } else m x

abbrev pub set_node_next : (ℕ → Node) → ℕ → ℕ → ℕ → Node
set_node_next m a b x = if x == a then record (m x) { next = b } else m x

-- `llist_init`
pub llist_init : (ℕ → Node) → Llist
llist_init m = record { head = 0; tail = 0; count = 0; mem = m }

-- `llist_prepend`
pub llist_prepend : Llist → ℕ → Llist
llist_prepend ll el =
    let a =
      if ll.head == 0
      then record ll { head = el; mem = set_node_next ll.mem el 0 }
      else record ll { mem = set_node_next (set_node_prev ll.mem ll.head el) el ll.head } in
    let b = if a.tail == 0 then record a { tail = el } else a in
    record b { count = add64 b.count 1; mem = set_node_prev b.mem el 0 }

-- `llist_append`
pub llist_append : Llist → ℕ → Llist
llist_append ll el =
    let a =
      if ll.tail == 0
      then record ll { tail = el; head = el; mem = set_node_prev ll.mem el 0 }
      else record ll {
        tail = el;
        mem = set_node_prev (set_node_next ll.mem ll.tail el) el ll.tail;
      } in
    record a { count = add64 a.count 1; mem = set_node_next a.mem el 0 }

-- `llist_remove`
pub llist_remove : Llist → ℕ → Llist
llist_remove ll el =
    let a = if ll.tail == el then record ll { tail = (ll.mem el).prev } else ll in
    let b = if a.head == 0 then a else record a { head = (a.mem el).next } in
    let next = (b.mem el).next in
    let prev = (b.mem el).prev in
    let c = if next == 0 then b else record b {
      mem = set_node_prev b.mem next (if prev == 0 then 0 else (b.mem prev).next);
    } in
    let d = if (c.mem el).prev == 0 then c else record c {
      mem =
          set_node_next c.mem (c.mem el).prev
            (if (c.mem el).next == 0 then 0 else (c.mem (c.mem el).next).prev);
    } in
    record d { count = sub64 d.count 1; mem = set_node_prev (set_node_next d.mem el 0) el 0 }

-- `xs` are the addresses of the links from `a` on, up to NULL, the first one's `prev` being `p`.
abbrev pub Chain : (ℕ → Node) → ℕ → ℕ → List ℕ → Type 0
Chain m p a [] = a ≡ 0
Chain m p a (x ∷ xs) = (a ≡ x) × (x ≢ 0) × ((m x).prev ≡ p) × Chain m x (m x).next xs

-- The links of the list, first to last
pub record IsList (ll : Llist) (xs : List ℕ) : Type 0 where
  pub chain : Chain ll.mem 0 ll.head xs
  pub last : ll.tail ≡ last_of xs
  pub counted : ll.count ≡ length xs
  pub distinct : Distinct xs
