-- ===== src/TaskSelector/Broadcast.antt =====
-- broadcastMsgToTask: a message for every instance.
use tsm_proxy.Prelude.{
  ℕ, zero, suc, ◌+◌, ◌<◌, ◌≡◌, refl, ap, ◌∙◌, sym, inl, inr, true, Option, none, some, List, [],
  ◌∷◌, ◌++◌, arith, length, Option-cases,
}
use mathlib.Core.List.{append-nil, append_assoc}
use tsm_proxy.HashTable.{HashTable}
use tsm_proxy.HashTable
use tsm_proxy.HashTable.Chains.{Chain}
use tsm_proxy.HashTable.Placed
use tsm_proxy.HashTable.Placed.{entries}
use tsm_proxy.HashTable.Laws
use tsm_proxy.HashTable.Traversal.{visit, visit-some, visit-none, visit-reset}
use tsm_proxy.HashTable.Image.{
  image, image-update, get_next-image, reset-image, entries-image, image-Placed,
  image-entries-length, image_chain, map_entry,
}
use tsm_proxy.TaskSelector.{UniNetMsg, Item, Selector, Effect, queue_copy, release}
use tsm_proxy.TaskSelector.Dispatch.{
  count_msg, broadcast_step, broadcast_loop, broadcast_msg_to_task,
}

abbrev pub task_unit : Item → ℕ
task_unit item = item.tu

-- A copy of the message for the task unit of each entry.
abbrev pub copies_for : UniNetMsg → Chain Item → List Effect
copies_for msg [] = []
copies_for msg ((k, item) ∷ c) = queue_copy item.tu msg ∷ copies_for msg c

units : UniNetMsg → Chain ℕ → List Effect
units msg [] = []
units msg ((k, tu) ∷ c) = queue_copy tu msg ∷ units msg c

units-image :
    (msg : UniNetMsg) (c : Chain Item) → units msg (image_chain task_unit c) ≡ copies_for msg c
unfolding units image_chain
units-image msg [] = refl
units-image msg ((k, item) ∷ c) = ap (◌∷◌ (queue_copy item.tu msg)) (units-image msg c)

-- Counting the messages of an item is not seen by a traversal that reads only the task units.
visit-count :
    (fuel k : ℕ) (t : HashTable Item)
    → visit fuel (image task_unit (HashTable.update k count_msg t)) ≡ visit fuel (image task_unit t)
visit-count fuel k t = ap (visit fuel) (image-update task_unit k count_msg t (λ item. refl))

visit-image-some :
    (fuel k : ℕ) (item : Item) (t : HashTable Item)
    → (HashTable.get_next t).1 ≡ some (k, item)
    → visit (suc fuel) (image task_unit t)
      ≡ (k, item.tu) ∷ visit fuel (image task_unit (HashTable.get_next t).0)
visit-image-some fuel k item t e =
    visit-some fuel (image task_unit t) (image task_unit (HashTable.get_next t).0) (k, item.tu)
      (get_next-image task_unit t
        ∙ ap
            (λ (o : Option (ℕ × Item)).
              (image task_unit (HashTable.get_next t).0, map_entry task_unit o))
            e)

visit-image-none :
    (fuel : ℕ) (t : HashTable Item)
    → (HashTable.get_next t).1 ≡ none
    → visit (suc fuel) (image task_unit t) ≡ []
visit-image-none fuel t e =
    visit-none fuel (image task_unit t) (image task_unit (HashTable.get_next t).0) (
      get_next-image task_unit t
      ∙ ap
          (λ (o : Option (ℕ × Item)).
            (image task_unit (HashTable.get_next t).0, map_entry task_unit o))
          e)

step_pair :
    (t : HashTable Item) (o : Option (ℕ × Item))
    → (HashTable.get_next t).1 ≡ o
    → HashTable.get_next t ≡ ((HashTable.get_next t).0, o)
step_pair t o e = ap (λ (x : Option (ℕ × Item)). ((HashTable.get_next t).0, x)) e

broadcast_loop-visit :
    (msg : UniNetMsg) (fuel : ℕ) (s : Selector)
    → (broadcast_loop msg fuel s).log
      ≡ s.log ++ units msg (visit fuel (image task_unit s.inst_list))
unfolding broadcast_loop broadcast_step visit units
broadcast_loop-visit msg zero s = sym (append-nil s.log)
broadcast_loop-visit msg (suc fuel) s = elim (Option-cases (HashTable.get_next s.inst_list).1) [
  | inl e ↦
      ap (λ p. (broadcast_step msg (broadcast_loop msg fuel) s p).log)
        (step_pair s.inst_list none e)
      ∙ sym (append-nil s.log)
      ∙ ap (λ c. s.log ++ units msg c) (sym (visit-image-none fuel s.inst_list e))
  | inr ((k, item), e) ↦
      let next = (HashTable.get_next s.inst_list).0 in
      ap (λ p. (broadcast_step msg (broadcast_loop msg fuel) s p).log)
        (step_pair s.inst_list (some (k, item)) e)
      ∙ broadcast_loop-visit msg fuel (record s {
        inst_list = HashTable.update k count_msg next;
        log = s.log ++ queue_copy item.tu msg ∷ [];
      })
      ∙ append_assoc s.log (queue_copy item.tu msg ∷ []) _
      ∙ ap (λ c. s.log ++ queue_copy item.tu msg ∷ units msg c) (visit-count fuel k next)
      ∙ ap (λ c. s.log ++ units msg c) (sym (visit-image-some fuel k item s.inst_list e))
]

reset-units :
    (msg : UniNetMsg) (fuel : ℕ) (t : HashTable Item)
    → HashTable.Placed.Placed t.table
    → length (entries t.table) < fuel
    → units msg (visit fuel (image task_unit (HashTable.reset t).0))
      ≡ copies_for msg (entries t.table)
reset-units msg fuel t p h =
    ap (λ u. units msg (visit fuel u)) (sym (reset-image task_unit t))
    ∙ ap (units msg) (
        visit-reset fuel (image task_unit t) (image-Placed task_unit t p)
          (omega (arith, image-entries-length task_unit t, h)))
    ∙ ap (units msg) (entries-image task_unit t.table)
    ∙ units-image msg (entries t.table)

-- A broadcast queues a copy for every registered instance, once each, in the order of the table,
-- then deletes the message, and succeeds.
pub broadcast-log :
    (msg : UniNetMsg) (s : Selector)
    → HashTable.Laws.IsValid s.inst_list
    → ((broadcast_msg_to_task msg s).1 ≡ true)
      × ((broadcast_msg_to_task msg s).0.log
          ≡ (s.log ++ copies_for msg (entries s.inst_list.table)) ++ release msg ∷ [])
unfolding broadcast_msg_to_task HashTable.size
broadcast-log msg s w = (
  refl,
  ap (λ es. es ++ release msg ∷ [])
      (broadcast_loop-visit msg (s.inst_list.entry_count + 1)
          (record s { inst_list = (HashTable.reset s.inst_list).0 })
        ∙ ap (λ es. s.log ++ es)
            (reset-units msg (s.inst_list.entry_count + 1) s.inst_list w.placed
              (omega (arith, w.counted)))),
)
