-- ===== src/Trash/Repository.antt =====
-- The items of the trash as repositories/trashRepository.js keeps them in its JSON file. Its table in the
-- database holds the same items by their id.
use servidor_drive.Prelude.{
  ◌≡◌, refl, ◌∙◌, Bool, true, false, ◌&&◌, Option, none, some, List, [], ◌∷◌, map, if◌then◌else◌,
  ltb, any, keep, Text, text_eq, text_eq_refl, eq_of_text_eq, is_nonempty, arith, Bool-cases, inl,
  inr,
}
use servidor_drive.Trash.Names.{safe_name}
use servidor_drive.Trash.Item.{
  TrashItem, ItemStatus, ItemType, trashed, restored, remote_delete_pending, permanently_deleted,
  file, folder, or_root, normalize_trash_item, normalize_trash_item_twice,
}

abbrev pub is_status : ItemStatus → ItemStatus → Bool
is_status trashed trashed = true
is_status restored restored = true
is_status remote_delete_pending remote_delete_pending = true
is_status permanently_deleted permanently_deleted = true
is_status _ _ = false

abbrev pub is_file : ItemType → Bool
is_file file = true
is_file folder = false

unfoldable pub load_json_items : List TrashItem → List TrashItem
load_json_items items = map normalize_trash_item items

abbrev pub find : Text → List TrashItem → Option TrashItem
find id [] = none
find id (item ∷ items) = if text_eq item.id id then some item else find id items

unfoldable pub get_trash_item : Text → List TrashItem → Option TrashItem
unfolding load_json_items
get_trash_item id items = if is_nonempty id then find id (load_json_items items) else none

-- `items[index] = normalized`, or `push` where no item has the id.
unfoldable pub put_item : TrashItem → List TrashItem → List TrashItem
put_item item [] = item ∷ []
put_item item (x ∷ xs) = if text_eq x.id item.id then item ∷ xs else x ∷ put_item item xs

unfoldable pub save_trash_item : TrashItem → List TrashItem → TrashItem × List TrashItem
unfolding load_json_items put_item
save_trash_item item items =
    let normalized = normalize_trash_item item in
    (normalized, load_json_items (put_item normalized (load_json_items items)))

-- The items in the order of their deletion, the last one first.
insert_by_time : TrashItem → List TrashItem → List TrashItem
insert_by_time item [] = item ∷ []
insert_by_time item (x ∷ xs) =
    if ltb item.deleted_at x.deleted_at then x ∷ insert_by_time item xs else item ∷ x ∷ xs

newest_first : List TrashItem → List TrashItem
unfolding insert_by_time
newest_first [] = []
newest_first (x ∷ xs) = insert_by_time x (newest_first xs)

-- `none` stands for the status "*".
unfoldable pub list_trash_items : Option ItemStatus → List TrashItem → List TrashItem
unfolding load_json_items newest_first
list_trash_items none items = newest_first (load_json_items items)
list_trash_items (some status) items =
    newest_first (keep (λ item. is_status item.status status) (load_json_items items))

abbrev pub named_file : Text → Text → TrashItem → Bool
named_file folder_id file_name item =
    is_file item.item_type
    && text_eq item.original_folder_id (or_root folder_id)
    && elim (item.original_file_name) [
      | none ↦ false
      | some name ↦ text_eq name (safe_name file_name)
    ]

unfoldable pub is_file_trashed : Text → Text → List TrashItem → Bool
unfolding list_trash_items
is_file_trashed folder_id file_name items =
    any (named_file folder_id file_name) (list_trash_items (some trashed) items)

find-put_item :
    (item : TrashItem) (id : Text) (items : List TrashItem)
    → find id (map normalize_trash_item (put_item item items)) ≡ (
        if text_eq item.id id
        then some (normalize_trash_item item)
        else find id (map normalize_trash_item items))
unfolding put_item normalize_trash_item
find-put_item item id [] = refl
find-put_item item id (x ∷ xs) = ground (
  arith,
  find-put_item item id xs,
  eq_of_text_eq x.id item.id,
  eq_of_text_eq x.id id,
  eq_of_text_eq item.id id,
  text_eq_refl id,
  text_eq_refl item.id,
)

find-normalize :
    (id : Text) (items : List TrashItem)
    → find id (map normalize_trash_item (map normalize_trash_item items))
      ≡ find id (map normalize_trash_item items)
find-normalize id [] = refl
find-normalize id (x ∷ xs) = rw (normalize_trash_item_twice x, find-normalize id xs)

-- After a write, the item is read by its id, and every other id reads what it read before.
pub get_trash_item-save_trash_item :
    (item : TrashItem) (id : Text) (items : List TrashItem)
    → get_trash_item id (save_trash_item item items).1 ≡ (
        if is_nonempty id && text_eq item.id id
        then some (normalize_trash_item item)
        else get_trash_item id items)
unfolding get_trash_item save_trash_item text_eq normalize_trash_item
get_trash_item-save_trash_item item [] items = refl
get_trash_item-save_trash_item item (c ∷ cs) items =
    let id : Text = c ∷ cs in
    let kept = normalize_trash_item item in
    let stored = map normalize_trash_item items in
    let same : kept.id ≡ item.id = unfold normalize_trash_item in refl in
    find-normalize id (put_item kept stored)
    ∙ find-put_item kept id stored
    ∙ rw (same, normalize_trash_item_twice item, find-normalize id items) refl

pub get_trash_item-save_other :
    (item : TrashItem) (other : Text) (items : List TrashItem)
    → text_eq item.id other ≡ false
    → get_trash_item other (save_trash_item item items).1 ≡ get_trash_item other items
get_trash_item-save_other item other items f = elim (Bool-cases (is_nonempty other)) [
  | inl y ↦ get_trash_item-save_trash_item item other items ∙ rw (y, f)
  | inr n ↦ get_trash_item-save_trash_item item other items ∙ rw n
]
