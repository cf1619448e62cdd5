-- ===== src/Llist/Timers.antt =====
-- src/watchers.c, src/shuttlesock.c: the timers of a process that it allocates itself. A timer is known
-- by the address of its link.
use mathlib.Core.List.{append_assoc, append-nil}
use shuttlesock.Base.{
  ℕ, zero, suc, ◌+◌, ◌<◌, ◌≡◌, refl, sym, subst, ◌∙◌, Bool, true, false, Option, none, some, List,
  [], ◌∷◌, ◌++◌, ◌==◌, if◌then◌else◌, length, All, arith, NotIn, Distinct,
}
use shuttlesock.Llist.{Llist, llist_init, llist_append, llist_remove, Chain, IsList}

-- `base_watchers.timer`, with the timers that are started, and those that were freed, in order
pub record Timers : Type 0 where
  pub timer : Llist
  pub active : ℕ → Bool
  pub freed : List ℕ

abbrev pub set_active : (ℕ → Bool) → ℕ → Bool → ℕ → Bool
set_active f w b x = if x == w then b else f x

-- `shuso_add_timer_watcher`, with what malloc gives; it returns NULL or the timer
pub add_timer_watcher : Timers → (malloc : ℕ) → ℕ × Timers
add_timer_watcher t wl =
    if wl == 0
    then (0, t)
    else (wl, record t { timer = llist_append t.timer wl; active = set_active t.active wl true })

-- `shuso_remove_timer_watcher`
pub remove_timer_watcher : Timers → ℕ → Timers
remove_timer_watcher t wl = record {
  timer = llist_remove t.timer wl;
  active = set_active t.active wl false;
  freed = t.freed ++ wl ∷ [];
}

-- `DELETE_BASE_WATCHERS(S, timer)` from the link `cur` on, in as many rounds as are given
pub delete_from : (rounds : ℕ) → ℕ → Timers → Option Timers
delete_from zero cur t = none
delete_from (suc n) cur t = elim (cur == 0) [
  | true ↦ some (record t { timer = llist_init t.timer.mem })
  | false ↦
      delete_from n (t.timer.mem cur).next
        (record t { active = set_active t.active cur false; freed = t.freed ++ cur ∷ [] })
]

pub delete_timers : (rounds : ℕ) → Timers → Option Timers
unfolding delete_from
delete_timers n t = delete_from n t.timer.head t

-- What is left after the timers `xs` are deleted.
pub record Deleted (xs : List ℕ) (t t' : Timers) : Type 0 where
  pub emptied : IsList t'.timer []
  pub stopped : All (λ x. t'.active x ≡ false) xs
  pub only_these : (x : ℕ) → NotIn x xs → t'.active x ≡ t.active x
  pub freed_each : t'.freed ≡ t.freed ++ xs

Deleted-cons :
    (x : ℕ) (xs : List ℕ) (t t' : Timers)
    → NotIn x xs
    → Deleted xs (record t { active = set_active t.active x false; freed = t.freed ++ x ∷ [] }) t'
    → Deleted (x ∷ xs) t t'
Deleted-cons x xs t t' n d = record {
  emptied = d.emptied;
  stopped = (d.only_these x n ∙ ground arith, d.stopped);
  only_these = λ y (ne, ns). d.only_these y ns ∙ ground (arith, ne);
  freed_each = d.freed_each ∙ append_assoc t.freed (x ∷ []) xs;
}

delete_from-Deleted :
    (n : ℕ) (p a : ℕ) (xs : List ℕ) (t : Timers)
    → Chain t.timer.mem p a xs
    → Distinct xs
    → length xs < n
    → (t' : Timers) × (delete_from n a t ≡ some t') × Deleted xs t t'
unfolding delete_from llist_init
delete_from-Deleted zero p a xs t c d h = absurd (omega arith)
delete_from-Deleted (suc n) p a [] t c d h = (
  record t { timer = llist_init t.timer.mem },
  ground (arith, c),
  record {
    emptied = ground arith;
    stopped = tt;
    only_these = λ x h. refl;
    freed_each = sym (append-nil t.freed);
  },
)
delete_from-Deleted (suc n) p a (x ∷ xs) t (e, nz, before, c) (nin, d) h =
    subst (λ a. (t' : Timers) × (delete_from (suc n) a t ≡ some t') × Deleted (x ∷ xs) t t') (sym e)
      (add_first (
        delete_from-Deleted n x (t.timer.mem x).next xs
          (record t { active = set_active t.active x false; freed = t.freed ++ x ∷ [] }) c d
          (omega arith)))
  where
    add_first :
        (t' : Timers) × (delete_from n
              (t.timer.mem x).next
              (record t { active = set_active t.active x false; freed = t.freed ++ x ∷ [] })
            ≡ some t')
          × Deleted xs
              (record t { active = set_active t.active x false; freed = t.freed ++ x ∷ [] })
              t'
        → (t' : Timers) × (delete_from (suc n) x t ≡ some t') × Deleted (x ∷ xs) t t'
    add_first (t', e', r) = (t', ground (arith, nz, e'), Deleted-cons x xs t t' nin r)

-- Deleting the timers of a list ends, stops each of them and no other, and frees each once, first to last.
pub delete_timers-Deleted :
    (xs : List ℕ) (t : Timers)
    → IsList t.timer xs
    → (t' : Timers) × (delete_timers (length xs + 1) t ≡ some t') × Deleted xs t t'
unfolding delete_timers
delete_timers-Deleted xs t q =
    delete_from-Deleted (length xs + 1) 0 t.timer.head xs t q.chain q.distinct (omega arith)
