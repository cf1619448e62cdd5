-- ===== src/Llist/Tests.antt =====
-- Lists at concrete inputs.
use shuttlesock.Base.{ℕ, ◌≡◌, ◌⊎◌, refl, true, some, List, [], ◌∷◌, arith, sub64}
use shuttlesock.Llist.{Llist, Chain, IsList, llist_append, llist_prepend, llist_remove}
use shuttlesock.Llist.Append.{llist_append-IsList, llist_prepend-Chain}
use shuttlesock.Llist.Remove.{llist_remove-IsList, head-llist_remove}
use shuttlesock.Llist.Timers.{Timers, Deleted, delete_timers, delete_timers-Deleted}

abbrev empty_list : Llist
empty_list = record { head = 0; tail = 0; count = 0; mem = λ _. record { prev = 0; next = 0 } }

empty_list-IsList : IsList empty_list []
empty_list-IsList = record { chain = refl; last = refl; counted = refl; distinct = tt }

abbrev one : Llist
one = llist_append empty_list 10

llist_append-IsList_example : IsList one (10 ∷ [])
llist_append-IsList_example =
    llist_append-IsList empty_list [] 10 empty_list-IsList tt (omega arith) (omega arith)

one-IsList : IsList one (10 ∷ [])
unfolding llist_append
one-IsList = ground arith

abbrev two : Llist
two = llist_append one 20

two-IsList : IsList two (10 ∷ 20 ∷ [])
unfolding llist_append
two-IsList = ground arith

abbrev ten : List ℕ
ten = 10 ∷ []

prepends_five :
    ((ten ≡ []) × IsList (llist_prepend one 5) (5 ∷ []))
    ⊎ (((llist_prepend one 5).head ≡ one.head)
        × Chain (llist_prepend one 5).mem 5 (llist_prepend one 5).head ten
        × ((llist_prepend one 5).count ≡ 2)
        × (((llist_prepend one 5).mem 5).next ≡ one.head))
prepends_five =
    llist_prepend-Chain one ten 5 one-IsList (omega arith, tt) (omega arith) (omega arith)

removes_ten : IsList (llist_remove two 10) (20 ∷ [])
removes_ten = llist_remove-IsList two 10 (20 ∷ []) two-IsList (omega arith)

head-llist_remove_example :
    ((llist_remove two 20).head ≡ 0) × ((llist_remove two 20).count ≡ sub64 2 1)
head-llist_remove_example = head-llist_remove two (10 ∷ []) [] 20 two-IsList

abbrev two_timers : Timers
two_timers = record { timer = two; active = λ _. true; freed = [] }

delete_timers-Deleted_example :
    (t' : Timers) × (delete_timers 3 two_timers ≡ some t') × Deleted (10 ∷ 20 ∷ []) two_timers t'
delete_timers-Deleted_example = delete_timers-Deleted (10 ∷ 20 ∷ []) two_timers two-IsList
