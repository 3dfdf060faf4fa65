-- ===== src/Trash/Files/Places.antt =====
-- What the maps and the directory hold before and after: lemmas on names, entries and links.
use servidor_drive.Prelude.{
  ◌≡◌, refl, ◌∙◌, false, Option, none, some, [], ◌∷◌, if◌then◌else◌, Text, text_eq, text_in,
  text_eq_refl, eq_of_text_eq, arith,
}
use servidor_drive.Prelude.TextMaps.{
  TextMap, lookup, insert, discard, lookup-insert, lookup-discard,
}
use servidor_drive.Trash.Item.{Entry}
use servidor_drive.Trash.Drive.{names_of, restore_entry, file_key}

pub text_in-names_of {ℓ} :
    {V : Type ℓ} (k : Text) (m : TextMap V) → lookup k m ≡ none → text_in k (names_of m) ≡ false
unfolding lookup
text_in-names_of k [] h = refl
text_in-names_of k ((j, v) ∷ m) h = ground (arith, text_in-names_of k m)

pub lookup-not_in {ℓ} :
    {V : Type ℓ} (k : Text) (m : TextMap V) → text_in k (names_of m) ≡ false → lookup k m ≡ none
unfolding lookup
lookup-not_in k [] h = refl
lookup-not_in k ((j, v) ∷ m) h = ground (arith, lookup-not_in k m)

-- The entry that comes back under a name.
abbrev pub renamed : Text → Text → Option Entry → Option Entry
renamed folder_id name none = none
renamed folder_id name (some e) =
    some (record e { file_name = some name; folder_id = some folder_id })

pub lookup-restore_entry :
    (folder_id name k : Text) (e : Option Entry) (entries : TextMap Entry)
    → lookup k (restore_entry folder_id name e entries) ≡ (
        if text_eq (file_key folder_id name) k
        then elim e [ none ↦ lookup k entries | some f ↦ renamed folder_id name (some f) ]
        else lookup k entries)
unfolding restore_entry
lookup-restore_entry folder_id name k none entries = ground arith
lookup-restore_entry folder_id name k (some e) entries =
    lookup-insert (file_key folder_id name) k _ entries

-- An entry that is taken out and put back.
pub lookup-restore_discarded :
    (folder_id name k : Text) (entries : TextMap Entry)
    → let key = file_key folder_id name in
      lookup k (restore_entry folder_id name (lookup key entries) (discard key entries))
      ≡ (if text_eq key k then renamed folder_id name (lookup key entries) else lookup k entries)
lookup-restore_discarded folder_id name k entries =
    let key = file_key folder_id name in
    lookup-restore_entry folder_id name k (lookup key entries) (discard key entries)
    ∙ ground (arith, lookup-discard key k entries, eq_of_text_eq key k)

pub lookup-restore_kept :
    (folder_id name k : Text) (entries : TextMap Entry)
    → let key = file_key folder_id name in
      lookup k (restore_entry folder_id name (lookup key entries) entries)
      ≡ (if text_eq key k then renamed folder_id name (lookup key entries) else lookup k entries)
lookup-restore_kept folder_id name k entries =
    let key = file_key folder_id name in
    lookup-restore_entry folder_id name k (lookup key entries) entries
    ∙ ground (arith, eq_of_text_eq key k)

-- A directory from which a name is taken and to which it is given back.
pub lookup-insert_discarded {ℓ} :
    {V : Type ℓ} (name k : Text) (v : V) (m : TextMap V)
    → lookup name m ≡ some v
    → lookup k (insert name v (discard name m)) ≡ lookup k m
lookup-insert_discarded name k v m h =
    lookup-insert name k v (discard name m)
    ∙ ground (arith, lookup-discard name k m, eq_of_text_eq name k)

pub lookup-discard_inserted {ℓ} :
    {V : Type ℓ} (path k : Text) (v : V) (m : TextMap V)
    → lookup path m ≡ none
    → lookup k (discard path (insert path v m)) ≡ lookup k m
lookup-discard_inserted path k v m h =
    lookup-discard path k (insert path v m)
    ∙ ground (arith, lookup-insert path k v m, eq_of_text_eq path k)

pub lookup-insert_own {ℓ} :
    {V : Type ℓ} (k : Text) (v : V) (m : TextMap V) → lookup k (insert k v m) ≡ some v
lookup-insert_own k v m = lookup-insert k k v m ∙ rw (text_eq_refl k)

pub lookup-discard_own {ℓ} : {V : Type ℓ} (k : Text) (m : TextMap V) → lookup k (discard k m) ≡ none
lookup-discard_own k m = lookup-discard k k m ∙ rw (text_eq_refl k)
