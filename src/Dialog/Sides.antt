-- ===== src/Dialog/Sides.antt =====
-- The table of dialogs as seen from both sides: insert, query and remove.
use tsm_proxy.Prelude.{
  ℕ, ◌+◌, ◌<◌, ◌≡◌, refl, ap, ◌∙◌, sym, inl, inr, ◌⊎◌, true, false, not, ◌&&◌, leb, ltb, Option,
  none, some, arith, ◌==◌, if◌then◌else◌, Bool-cases, ==_refl,
}
use tsm_proxy.ExpireBuffer.{ExpireBuffer, is_some}
use tsm_proxy.ExpireBuffer
use tsm_proxy.ExpireBuffer.Keys
use tsm_proxy.ExpireBuffer.Keys.{find-push, find-pop}
use tsm_proxy.Dialog.{
  Dialogs, DialogInfo, insert, query, remove, remove_front, remove_back, first_id,
}

pub record IsValid (d : Dialogs) : Type 0 where
  pub front : ExpireBuffer.Keys.IsValid d.map_f
  pub back : ExpireBuffer.Keys.IsValid d.map_b

abbrev info : (id_f id_b addr : ℕ) → DialogInfo
info id_f id_b addr = record { dialog_id_f = id_f; dialog_id_b = id_b; addr = addr }

-- The two pushes of an insert.
abbrev pub push_f : (now id_f id_b addr : ℕ) → Dialogs → ExpireBuffer DialogInfo × ℕ
push_f now id_f id_b addr d = ExpireBuffer.push now id_f (info id_f id_b addr) d.map_f

abbrev pub push_b : (now id_f id_b : ℕ) → Dialogs → ExpireBuffer ℕ × ℕ
push_b now id_f id_b d = ExpireBuffer.push now id_b id_f d.map_b

-- A push that returned 1.
pushed {ℓ} :
    {V : Type ℓ} (now k : ℕ) (v : V) (b : ExpireBuffer V)
    → ExpireBuffer.Keys.IsValid b
    → (ExpireBuffer.push now k v b).1 ≡ 1
    → ((j : ℕ)
        → ExpireBuffer.find j (ExpireBuffer.push now k v b).0
          ≡ (if j == k then some v else ExpireBuffer.find j b))
      × ExpireBuffer.Keys.IsValid (ExpireBuffer.push now k v b).0
pushed now k v b w one = (
  (λ j. elim (find-push j now k v b w) [
    | inl (a, f, u) ↦ f
    | inr (inl (a, f)) ↦ absurd (omega (arith, one, a))
    | inr (inr a) ↦ absurd (omega (arith, one, a))
  ]),
  elim (find-push k now k v b w) [
    | inl (a, f, u) ↦ u
    | inr (inl (a, f)) ↦ absurd (omega (arith, one, a))
    | inr (inr a) ↦ absurd (omega (arith, one, a))
  ],
)

-- Room for a record whose key is new; a limit of 0 is none.
abbrev pub HasRoom {ℓ} : {V : Type ℓ} → ExpireBuffer V → Type 0
HasRoom b = (b.count_max ≡ 0) ⊎ (b.count < b.count_max)

push_new {ℓ} :
    {V : Type ℓ} (now k : ℕ) (v : V) (b : ExpireBuffer V)
    → ExpireBuffer.Keys.IsValid b
    → ExpireBuffer.find k b ≡ none
    → HasRoom b
    → (ExpireBuffer.push now k v b).1 ≡ 1
unfolding ExpireBuffer.push
push_new now k v b w e room =
    let absent = sym (ExpireBuffer.Keys.find_lem k b w) ∙ e in
    let refused : (not b.destroy_old && (ltb 0 b.count_max && leb b.count_max b.count)) ≡ false =
      elim room [ inl z ↦ ground (arith, z) | inr l ↦ ground (arith, l) ] in
    let over : (ltb 0 b.count_max && ltb b.count_max (b.count + 1)) ≡ false = elim room [
      | inl z ↦ ground (arith, z)
      | inr l ↦ ground (arith, l)
    ] in
    rw (absent, refused, over, ExpireBuffer.push) refl

-- A key that is taken: the buffer stays, and push returns 0.
push_taken {ℓ} :
    {V : Type ℓ} (now k : ℕ) (v x : V) (b : ExpireBuffer V)
    → ExpireBuffer.Keys.IsValid b
    → ExpireBuffer.find k b ≡ some x
    → ExpireBuffer.push now k v b ≡ (b, 0)
unfolding ExpireBuffer.push
push_taken now k v x b w e =
    let there = sym (ExpireBuffer.Keys.find_lem k b w) ∙ e in rw (there, ExpireBuffer.push) refl

module _ (now id_f id_b addr : ℕ) (d : Dialogs) (w : IsValid d)
    (new_f : ExpireBuffer.find id_f d.map_f ≡ none) (room_f : HasRoom d.map_f) where
  one_f : (push_f now id_f id_b addr d).1 ≡ 1
  one_f = push_new now id_f (info id_f id_b addr) d.map_f w.front new_f room_f

  front_find : ExpireBuffer.find id_f (push_f now id_f id_b addr d).0 ≡ some (info id_f id_b addr)
  front_find =
      (pushed now id_f (info id_f id_b addr) d.map_f w.front one_f).0 id_f ∙ rw ==_refl refl

  -- In well-formed maps, a dialog whose two ids are new, where each map has room for it, is found by
  -- either id, provided that its first id is not the second id of a dialog; the insert succeeds and
  -- keeps both maps well formed.
  pub query-insert :
      ExpireBuffer.find id_b d.map_b ≡ none
      → HasRoom d.map_b
      → ExpireBuffer.find id_f d.map_b ≡ none
      → (query id_b (insert now id_f id_b addr d).0 ≡ some (info id_f id_b addr))
        × (query id_f (insert now id_f id_b addr d).0 ≡ some (info id_f id_b addr))
        × ((insert now id_f id_b addr d).1 ≡ true)
        × IsValid (insert now id_f id_b addr d).0
  unfolding query insert first_id
  query-insert new_b room_b apart =
      let one_b = push_new now id_b id_f d.map_b w.back new_b room_b in
      let (back_find, valid_b) = pushed now id_b id_f d.map_b w.back one_b in
      let at_b : ExpireBuffer.find id_b (push_b now id_f id_b d).0 ≡ some id_f =
        back_find id_b ∙ rw ==_refl refl in
      let seen : ExpireBuffer.find id_f (push_b now id_f id_b d).0
          ≡ (if id_f == id_b then some id_f else none) =
        back_find id_f ∙ ap (λ o. if id_f == id_b then some id_f else o) apart in
      let first : first_id id_f (ExpireBuffer.find id_f (push_b now id_f id_b d).0) ≡ id_f =
        ap (first_id id_f) seen
        ∙ elim (Bool-cases (id_f == id_b)) [ inl e ↦ rw e refl | inr e ↦ rw e refl ] in
      (
        rw at_b front_find,
        ap (λ i. ExpireBuffer.find i (push_f now id_f id_b addr d).0) first ∙ front_find,
        rw (one_f, one_b) refl,
        record {
          front = (pushed now id_f (info id_f id_b addr) d.map_f w.front one_f).1;
          back = valid_b;
        },
      )

  -- In well-formed maps, an insert whose second id is taken, and whose first id is new where its map
  -- has room, reports failure and leaves the map of the second ids as it is, but leaves the dialog in the map of its
  -- first id all the same.
  pub insert-half :
      (x : ℕ)
      → ExpireBuffer.find id_b d.map_b ≡ some x
      → ((insert now id_f id_b addr d).1 ≡ false)
        × ((insert now id_f id_b addr d).0.map_b ≡ d.map_b)
        × (ExpireBuffer.find id_f (insert now id_f id_b addr d).0.map_f
            ≡ some (info id_f id_b addr))
  unfolding insert
  insert-half x taken_b =
      let same = push_taken now id_b id_f x d.map_b w.back taken_b in
      (rw (one_f, ap (λ r. r.1) same) refl, ap (λ r. r.0) same, front_find)

-- What find answers at the key that was popped.
gone {ℓ} :
    {V : Type ℓ} (k : ℕ) (b : ExpireBuffer V)
    → ExpireBuffer.Keys.IsValid b
    → ExpireBuffer.find k (ExpireBuffer.pop k b).0 ≡ none
gone k b w = (find-pop k k b w).0 ∙ rw ==_refl refl

pop_pair {ℓ} :
    {V : Type ℓ} (k : ℕ) (b : ExpireBuffer V) (o : Option V)
    → ExpireBuffer.Keys.IsValid b
    → ExpireBuffer.find k b ≡ o
    → ExpireBuffer.pop k b ≡ ((ExpireBuffer.pop k b).0, o)
pop_pair {V = V} k b o w e =
    ap (λ (x : Option V). ((ExpireBuffer.pop k b).0, x)) ((find-pop k k b w).1 ∙ e)

-- RemoveDialogTab with either id of a dialog takes it out of both maps, provided that its second id
-- is not the first id of a dialog.
pub remove-gone :
    (id_f id_b : ℕ) (inf : DialogInfo) (d : Dialogs)
    → IsValid d
    → ExpireBuffer.find id_f d.map_f ≡ some inf
    → inf.dialog_id_b ≡ id_b
    → ExpireBuffer.find id_b d.map_b ≡ some id_f
    → ExpireBuffer.find id_b d.map_f ≡ none
    → ((ExpireBuffer.find id_f (remove id_f d).map_f ≡ none)
        × (ExpireBuffer.find id_b (remove id_f d).map_b ≡ none))
      × ((ExpireBuffer.find id_f (remove id_b d).map_f ≡ none)
          × (ExpireBuffer.find id_b (remove id_b d).map_b ≡ none))
unfolding remove remove_front remove_back
remove-gone id_f id_b inf d w in_f same in_b apart =
    let valid_f = (find-pop id_b id_b d.map_f w.front).2 in
    let still : ExpireBuffer.find id_f (ExpireBuffer.pop id_b d.map_f).0
        ≡ (if id_f == id_b then none else ExpireBuffer.find id_f d.map_f) =
      (find-pop id_f id_b d.map_f w.front).0 in
    let by_f : remove id_f d ≡ record {
      map_f = (ExpireBuffer.pop id_f d.map_f).0;
      map_b = (ExpireBuffer.pop inf.dialog_id_b d.map_b).0;
    } =
      ap (λ r. remove_front id_f r d.map_b) (pop_pair id_f d.map_f (some inf) w.front in_f) in
    let by_b : remove id_b d ≡ record {
      map_f = (ExpireBuffer.pop id_f (ExpireBuffer.pop id_b d.map_f).0).0;
      map_b = (ExpireBuffer.pop id_b d.map_b).0;
    } =
      ap (λ r. remove_front id_b r d.map_b) (pop_pair id_b d.map_f none w.front apart)
      ∙ ap (remove_back (ExpireBuffer.pop id_b d.map_f).0)
          (pop_pair id_b d.map_b (some id_f) w.back in_b) in
    (
      (
        ap (λ (x : Dialogs). ExpireBuffer.find id_f x.map_f) by_f ∙ gone id_f d.map_f w.front,
        ap (λ (x : Dialogs). ExpireBuffer.find id_b x.map_b) by_f
            ∙ ap (λ i. ExpireBuffer.find id_b (ExpireBuffer.pop i d.map_b).0) same
            ∙ gone id_b d.map_b w.back,
      ),
      (
        ap (λ (x : Dialogs). ExpireBuffer.find id_f x.map_f) by_b
            ∙ gone id_f (ExpireBuffer.pop id_b d.map_f).0 valid_f,
        ap (λ (x : Dialogs). ExpireBuffer.find id_b x.map_b) by_b ∙ gone id_b d.map_b w.back,
      ),
    )
