-- ===== src/Dialog/Refresh.antt =====
-- UpdateDialogExpire and ExistDialogTab against QueryDialogTab.
use tsm_proxy.Prelude.{ℕ, ◌≡◌, refl, ap, ◌∙◌, inl, inr, Option-cases}
use tsm_proxy.ExpireBuffer.{ExpireBuffer, is_some}
use tsm_proxy.ExpireBuffer
use tsm_proxy.ExpireBuffer.Refresh.{find-update}
use tsm_proxy.Dialog.{Dialogs, query, exist, update_expire, first_id}
use tsm_proxy.Dialog.Sides.{IsValid}

-- Two tables whose maps answer the same find.
record IsSame (a d : Dialogs) : Type 0 where
  same_f : (k : ℕ) → ExpireBuffer.find k a.map_f ≡ ExpireBuffer.find k d.map_f
  same_b : (k : ℕ) → ExpireBuffer.find k a.map_b ≡ ExpireBuffer.find k d.map_b

query-same : (j : ℕ) (a d : Dialogs) → IsSame a d → query j a ≡ query j d
unfolding query
query-same j a d s =
    s.same_f (first_id j (ExpireBuffer.find j a.map_b))
    ∙ ap (λ o. ExpireBuffer.find (first_id j o) d.map_f) (s.same_b j)

module _ (now t : ℕ) (d : Dialogs) (w : IsValid d) where
  -- The table whose two maps refresh a record each.
  abbrev refreshed : (k l : ℕ) → Dialogs
  refreshed k l = record {
    map_f = (ExpireBuffer.update now k t d.map_f).0;
    map_b = (ExpireBuffer.update now l t d.map_b).0;
  }

  refreshed-IsSame : (k l : ℕ) → IsSame (refreshed k l) d
  refreshed-IsSame k l = record {
    same_f = λ j. (find-update j now k t d.map_f w.front).0;
    same_b = λ j. (find-update j now l t d.map_b w.back).0;
  }

  refreshed-IsValid : (k l : ℕ) → IsValid (refreshed k l)
  refreshed-IsValid k l = record {
    front = (find-update k now k t d.map_f w.front).2;
    back = (find-update l now l t d.map_b w.back).2;
  }

  -- UpdateDialogExpire changes no answer of QueryDialogTab, keeps both maps well formed, and succeeds
  -- where ExistDialogTab answers TRUE.
  pub query-update_expire :
      (id j : ℕ)
      → (query j (update_expire now id t d).0 ≡ query j d)
        × ((update_expire now id t d).1 ≡ exist id d)
        × IsValid (update_expire now id t d).0
  unfolding update_expire exist
  query-update_expire id j = elim (Option-cases (ExpireBuffer.find id d.map_f)) [
    | inr (info, e) ↦ elim (Option-cases (ExpireBuffer.find id d.map_b)) [
      | inl f ↦
          rw (update_expire, e, f)
            (
              query-same j (refreshed id info.dialog_id_b) d (refreshed-IsSame id info.dialog_id_b),
              refl,
              refreshed-IsValid id info.dialog_id_b,
            )
      | inr (did, f) ↦
          rw (update_expire, e, f)
            (
              query-same j (refreshed id info.dialog_id_b) d (refreshed-IsSame id info.dialog_id_b),
              refl,
              refreshed-IsValid id info.dialog_id_b,
            )
    ]
    | inl e ↦ elim (Option-cases (ExpireBuffer.find id d.map_b)) [
      | inl f ↦ rw (update_expire, e, f) (refl, refl, w)
      | inr (did, f) ↦
          rw (update_expire, e, f)
            (
              query-same j (refreshed did id) d (refreshed-IsSame did id),
              refl,
              refreshed-IsValid did id,
            )
    ]
  ]
