-- ===== src/FrameMng/Starts.antt =====
-- What Run starts, and where the commands go (xframe/framemng.C).
use tsm_proxy.Prelude.{
  ℕ, zero, suc, ◌+◌, ◌≡◌, refl, ap, ◌∙◌, sym, inl, inr, ◌≢◌, Bool, true, false, ◌&&◌, Option, none,
  some, List, [], ◌∷◌, ◌==◌, if◌then◌else◌, length, get_elem?, Bool-cases, u32, ==_ne,
}
use tsm_proxy.Prelude.Int.{negsuc}
use tsm_proxy.Clist.{Clist}
use tsm_proxy.Fifo
use tsm_proxy.FrameCtrl
use tsm_proxy.FrameCtrl.{app_init}
use tsm_proxy.FrameMng.{
  FrameMng, TaskEntry, Command, change, start, start_kernal, start_task, for_tasks, event_of,
  next_trans, selects, unsigned, is_minus_one, command_event, send_to, send_command, handle_command,
}
use tsm_proxy.FrameMng.Loops.{
  Commutes, Acts, Step, visit, places, cursor_at, each_task, visit-each_task, for_tasks-visit,
}

-- The list of instances has every TTask once, in the order in which they were made.
abbrev pub IsListed : FrameMng → Type 0
IsListed m = m.inst_list.items ≡ places 0 (length m.tasks)

change-at :
    (f : TaskEntry → TaskEntry) (i : ℕ) (t : TaskEntry) (ts : List TaskEntry)
    → get_elem? ts i ≡ some t
    → change i f ts ≡ change i (λ e. f t) ts
unfolding change
change-at f i t [] h = refl
change-at f zero t (u ∷ ts) h = let same : u ≡ t = cc in ap (λ x. f x ∷ ts) same
change-at f (suc i) t (u ∷ ts) h = ap (λ x. u ∷ x) (change-at f i t ts h)

length-each_task :
    (g : Step) (k : ℕ) (ts : List TaskEntry) → length (each_task g k ts).1 ≡ length ts
unfolding each_task
length-each_task g k [] = refl
length-each_task g k (t ∷ ts) = ap suc (length-each_task g (g k t).0 ts)

-- The loop does a step to every TTask.
for_tasks-each_task :
    (body : ℕ → FrameMng → FrameMng) (f : Step)
    → Commutes body
    → Acts body f
    → (m : FrameMng) → IsListed m
    → ((for_tasks body m).tasks ≡ (each_task f m.trans_id m.tasks).1)
      × ((for_tasks body m).trans_id ≡ (each_task f m.trans_id m.tasks).0)
      × ((for_tasks body m).framectrl ≡ m.framectrl)
      × ((for_tasks body m).kernal_running ≡ m.kernal_running)
      × IsListed (for_tasks body m)
for_tasks-each_task body f c a m h =
    let (l, same, looped) = for_tasks-visit body c m in
    let whole : for_tasks body m
        ≡ cursor_at l (record m {
          trans_id = (each_task f m.trans_id m.tasks).0;
          tasks = (each_task f m.trans_id m.tasks).1;
        }) =
      looped
      ∙ ap (cursor_at l)
          (ap (λ is. visit body is m) h ∙ visit-each_task body f a [] m.tasks m refl) in
    (
      ap (λ (x : FrameMng). x.tasks) whole,
      ap (λ (x : FrameMng). x.trans_id) whole,
      ap (λ (x : FrameMng). x.framectrl) whole,
      ap (λ (x : FrameMng). x.kernal_running) whole,
      ap (λ (x : FrameMng). x.inst_list.items) whole
          ∙ same
          ∙ h
          ∙ ap (places 0) (
              sym (length-each_task f m.trans_id m.tasks)
              ∙ ap (λ (x : FrameMng). length x.tasks) (sym whole)),
    )

-- A TTask gets an init event with the next transaction id, and its thread runs.
unfoldable pub started : Step
started k t = (
  u32 (k + 1),
  record t { fifo = Fifo.add (event_of app_init (u32 (k + 1)) []) t.fifo; running = true },
)

-- Run starts the kernal and then every instance, if all are listed: the kernal's thread runs and its
-- fifo gets one init event, each instance gets one init event, with transaction ids that count on in
-- the order in which the instances were made, and every thread of an instance runs.
pub start-started :
    (m : FrameMng)
    → IsListed m
    → ((start m).kernal_running ≡ true)
      × ((start m).framectrl ≡ (FrameCtrl.add (event_of app_init (next_trans m) []) m.framectrl).0)
      × ((start m).tasks ≡ (each_task started (next_trans m) m.tasks).1)
      × ((start m).trans_id ≡ (each_task started (next_trans m) m.tasks).0)
      × IsListed (start m)
unfolding start started start_kernal start_task
start-started m h =
    let (a, b, c, r, d) =
      for_tasks-each_task start_task started (λ i l x. refl)
        (λ i t x e.
          ap (λ ts. record x { trans_id = next_trans x; tasks = ts }) (change-at _ i t x.tasks e))
        (start_kernal m) h in
    (r, c, a, b, d)

-- A TTask that a command selects gets its event, with the next transaction id; the others stay.
unfoldable pub commanded : Command → Step
commanded c k t =
    if selects c t
    then (u32 (k + 1), record t { fifo = Fifo.add (command_event c (u32 (k + 1))) t.fifo })
    else (k, t)

send_to-cursor_at :
    (c : Command) (i : ℕ) (l : Clist) (m : FrameMng) (o : Option TaskEntry)
    → send_to c i o (cursor_at l m) ≡ cursor_at l (send_to c i o m)
unfolding send_to
send_to-cursor_at c i l m none = refl
send_to-cursor_at c i l m (some t) = elim (Bool-cases (selects c t)) [
  | inl e ↦ rw e refl
  | inr e ↦ rw e refl
]

send_command-cursor_at : (c : Command) → Commutes (send_command c)
unfolding send_command
send_command-cursor_at c i l m = send_to-cursor_at c i l m (get_elem? m.tasks i)

-- A write of the value that is there changes nothing.
change_same :
    (i : ℕ) (t : TaskEntry) (ts : List TaskEntry)
    → get_elem? ts i ≡ some t
    → change i (λ e. t) ts ≡ ts
unfolding change
change_same i t [] h = refl
change_same zero t (u ∷ ts) h = let same : t ≡ u = cc in ap (λ x. x ∷ ts) same
change_same (suc i) t (u ∷ ts) h = ap (λ x. u ∷ x) (change_same i t ts h)

send_command-Acts : (c : Command) → Acts (send_command c) (commanded c)
unfolding send_command send_to commanded
send_command-Acts c i t m h = elim (Bool-cases (selects c t)) [
  | inl e ↦
      rw (h, e)
        (ap (λ ts. record m { trans_id = next_trans m; tasks = ts }) (change-at _ i t m.tasks h))
  | inr e ↦ rw (h, e) (ap (λ ts. record m { tasks = ts }) (sym (change_same i t m.tasks h)))
]

-- A command goes to the instances that it selects and to no other, as an event of its own for each,
-- with transaction ids that count on in the order of the instances.
pub handle_command-commanded :
    (c : Command) (m : FrameMng)
    → IsListed m
    → ((handle_command c m).tasks ≡ (each_task (commanded c) m.trans_id m.tasks).1)
      × ((handle_command c m).trans_id ≡ (each_task (commanded c) m.trans_id m.tasks).0)
      × IsListed (handle_command c m)
unfolding handle_command
handle_command-commanded c m h =
    let (a, b, f, r, d) =
      for_tasks-each_task (send_command c) (commanded c) (λ i l x. send_command-cursor_at c i l x)
        (send_command-Acts c) m h in
    (a, b, d)

-- Every instance id is one that an int can hold.
abbrev pub IsSmall : List TaskEntry → Type 0
IsSmall [] = Unit
IsSmall (t ∷ ts) = (t.inst_id ≢ 4294967295) × IsSmall ts

and_false : (b : Bool) → (b && false) ≡ false
and_false true = refl
and_false false = refl

unselected :
    (c : Command) (k : ℕ) (ts : List TaskEntry)
    → is_minus_one c.task_id ≡ false
    → c.inst_id ≡ negsuc 0
    → IsSmall ts
    → each_task (commanded c) k ts ≡ (k, ts)
unfolding each_task commanded selects
unselected c k [] n e s = refl
unselected c k (t ∷ ts) n e (p, s) =
    let no : (t.inst_id == 4294967295) ≡ false = ==_ne t.inst_id 4294967295 p in
    let rest = unselected c k ts n e s in
    rw (n, e, no, and_false (t.task_id == unsigned c.task_id), rest)

-- A command for one task without an instance id, which is what the constructor of Command sets,
-- reaches no instance, if every instance is listed and none has the id 2 ^ 32 - 1.
pub handle_command-unselected :
    (c : Command) (m : FrameMng)
    → IsListed m
    → is_minus_one c.task_id ≡ false
    → c.inst_id ≡ negsuc 0
    → IsSmall m.tasks
    → ((handle_command c m).tasks ≡ m.tasks) × ((handle_command c m).trans_id ≡ m.trans_id)
handle_command-unselected c m h n e s =
    let (a, b, d) = handle_command-commanded c m h in
    let none_selected = unselected c m.trans_id m.tasks n e s in
    (a ∙ ap (λ r. r.1) none_selected, b ∙ ap (λ r. r.0) none_selected)
