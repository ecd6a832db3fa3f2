-- ===== src/Examples/Dialogs.antt =====
-- The expiring buffer and the table of dialogs, at concrete values.
use tsm_proxy.Prelude.{ℕ, ◌≡◌, refl, inl, true, false, none, some, [], ◌∷◌, arith}
use tsm_proxy.ExpireBuffer.{
  Entry, ExpireBuffer, find, pop, push, pop_old, lookup, append, time_or, is_some, take_out, update,
  without_key, pop_front,
}
use tsm_proxy.ExpireBuffer
use tsm_proxy.ExpireBuffer.Keys
use tsm_proxy.ExpireBuffer.Keys.{find-push, find-pop}
use tsm_proxy.Dialog
use tsm_proxy.Dialog.{Dialogs, DialogInfo, insert, query, remove, exist, update_expire}
use tsm_proxy.Dialog.Sides
use tsm_proxy.Dialog.Sides.{query-insert, remove-gone, insert-half}

-- Two records of a buffer for three, of the times 10 and 90.
abbrev buffer : ExpireBuffer ℕ
buffer = record {
  entries =
      record { key = 1; value = 11; refresh_time = 10 }
      ∷ record { key = 2; value = 22; refresh_time = 90 }
      ∷ [];
  count = 2;
  count_max = 3;
  destroy_old = true;
  living_time = 50;
}

buffer-IsValid : ExpireBuffer.Keys.IsValid buffer
unfolding lookup
buffer-IsValid = record {
  counted = refl;
  distinct = (refl, (refl, tt));
  bounded = λ h. omega arith;
}

-- The same records in a buffer for two.
abbrev full_buffer : ExpireBuffer ℕ
full_buffer = record buffer { count_max = 2 }

full_buffer-IsValid : ExpireBuffer.Keys.IsValid full_buffer
unfolding lookup
full_buffer-IsValid = record {
  counted = refl;
  distinct = (refl, (refl, tt));
  bounded = λ h. omega arith;
}

find-full_buffer : find 3 full_buffer ≡ none
unfolding find lookup
find-full_buffer = refl

-- The table with the dialog of the ids 5 and 6.
abbrev one_info : DialogInfo
one_info = record { dialog_id_f = 5; dialog_id_b = 6; addr = 7 }

abbrev one_dialog : Dialogs
one_dialog = record {
  map_f = record {
    entries = record { key = 5; value = one_info; refresh_time = 10 } ∷ [];
    count = 1;
    count_max = 0;
    destroy_old = true;
    living_time = 50;
  };
  map_b = record {
    entries = record { key = 6; value = 5; refresh_time = 10 } ∷ [];
    count = 1;
    count_max = 0;
    destroy_old = true;
    living_time = 50;
  };
}

one_dialog-IsValid : Dialog.Sides.IsValid one_dialog
unfolding lookup
one_dialog-IsValid = record {
  front = record {
    counted = refl;
    distinct = (refl, tt);
    bounded = λ h. absurd (omega (arith, h));
  };
  back = record { counted = refl; distinct = (refl, tt); bounded = λ h. absurd (omega (arith, h)) };
}

new_8 : find 8 one_dialog.map_f ≡ none
unfolding find lookup
new_8 = refl

new_9 : find 9 one_dialog.map_b ≡ none
unfolding find lookup
new_9 = refl

no_8 : find 8 one_dialog.map_b ≡ none
unfolding find lookup
no_8 = refl

query-insert_example :
    (query 9 (insert 20 8 9 7 one_dialog).0
      ≡ some (record { dialog_id_f = 8; dialog_id_b = 9; addr = 7 }))
    × (query 8 (insert 20 8 9 7 one_dialog).0
        ≡ some (record { dialog_id_f = 8; dialog_id_b = 9; addr = 7 }))
    × ((insert 20 8 9 7 one_dialog).1 ≡ true)
    × Dialog.Sides.IsValid (insert 20 8 9 7 one_dialog).0
query-insert_example =
    query-insert 20 8 9 7 one_dialog one_dialog-IsValid new_8 (inl refl) new_9 (inl refl) no_8

new_4 : find 4 one_dialog.map_f ≡ none
unfolding find lookup
new_4 = refl

in_back : find 6 one_dialog.map_b ≡ some 5
unfolding find lookup
in_back = refl

insert-half_example :
    ((insert 20 4 6 7 one_dialog).1 ≡ false)
    × ((insert 20 4 6 7 one_dialog).0.map_b ≡ one_dialog.map_b)
    × (find 4 (insert 20 4 6 7 one_dialog).0.map_f
        ≡ some (record { dialog_id_f = 4; dialog_id_b = 6; addr = 7 }))
insert-half_example = insert-half 20 4 6 7 one_dialog one_dialog-IsValid new_4 (inl refl) 5 in_back

in_front : find 5 one_dialog.map_f ≡ some one_info
unfolding find lookup
in_front = refl

no_6 : find 6 one_dialog.map_f ≡ none
unfolding find lookup
no_6 = refl

remove-gone_example :
    ((find 5 (remove 5 one_dialog).map_f ≡ none) × (find 6 (remove 5 one_dialog).map_b ≡ none))
    × ((find 5 (remove 6 one_dialog).map_f ≡ none) × (find 6 (remove 6 one_dialog).map_b ≡ none))
remove-gone_example =
    remove-gone 5 6 one_info one_dialog one_dialog-IsValid in_front refl in_back no_6
