-- ===== src/Access/Users.antt =====
-- Which users an entry names, and with which rights.
use servidor_drive.Prelude.{
  ◌≡◌, refl, ◌∙◌, true, ◌&&◌, ◌||◌, Option, none, some, List, [], ◌∷◌, ◌++◌, any, if◌then◌else◌,
  Text, text_eq, eq_of_text_eq, text_in, trim, is_nonempty, arith, Bool-cases, inl, inr,
}
use servidor_drive.Prelude.TextMaps.{TextMap, lookup, insert, lookup-insert}
use servidor_drive.Access.{
  Access, reads, edits, add_users, add_readers, normalize_access_users, distinct_names,
  normalize_allowed_users,
}

module _ (u : Text) where
  -- What is given to a user last, of what gives any right: an editor may read as well.
  abbrev pub given : TextMap Access → Option Access → Option Access
  given [] before = before
  given ((name, access) ∷ rest) before = given rest (
      if is_nonempty (trim name) && text_eq (trim name) u && (access.read || access.edit)
      then some (record { read = access.read || access.edit; edit = access.edit })
      else before)

  lookup-add_users :
      (raw users : TextMap Access) → lookup u (add_users users raw) ≡ given raw (lookup u users)
  unfolding add_users
  lookup-add_users [] users = refl
  lookup-add_users ((name, access) ∷ rest) users =
      let now : Access = record { read = access.read || access.edit; edit = access.edit } in
      ground (
        arith,
        lookup-add_users rest users,
        lookup-add_users rest (insert (trim name) now users),
        lookup-insert (trim name) u now users,
      )

  reads-add_readers :
      (names : List Text) (users : TextMap Access)
      → (reads (lookup u (add_readers users names)) ≡ (text_in u names || reads (lookup u users)))
        × (edits (lookup u (add_readers users names)) ≡ edits (lookup u users))
  unfolding add_readers
  reads-add_readers [] users = (refl, refl)
  reads-add_readers (name ∷ names) users =
      let now : Access = record { read = true; edit = edits (lookup name users) } in
      let (r, e) = reads-add_readers names (insert name now users) in
      elim (Bool-cases (text_eq name u)) [
        | inl t ↦
            let p : name ≡ u = eq_of_text_eq name u t in
            (
              r ∙ rw (lookup-insert name u now users, t) (ground arith),
              e ∙ rw (lookup-insert name u now users, t) (rw p refl),
            )
        | inr f ↦ (
          r ∙ rw (lookup-insert name u now users, f) refl,
          e ∙ rw (lookup-insert name u now users, f) refl,
        )
      ]

  text_in-append :
      (x : Text) (xs : List Text) → text_in u (xs ++ x ∷ []) ≡ (text_in u xs || text_eq x u)
  text_in-append x [] = ground arith
  text_in-append x (y ∷ xs) = ground (arith, text_in-append x xs)

  text_in-distinct_names :
      (value met : List Text)
      → text_in u (distinct_names met value)
        ≡ (text_in u met || (is_nonempty u && any (λ x. text_eq (trim x) u) value))
  unfolding distinct_names
  text_in-distinct_names [] met = ground arith
  text_in-distinct_names (x ∷ value) met = ground (
    arith,
    text_in-distinct_names value met,
    text_in-distinct_names value (met ++ trim x ∷ []),
    text_in-append (trim x) met,
    eq_of_text_eq (trim x) u,
  )

-- What normalizeAccessUsers makes of an entry's users and its older list, for every name: the map it
-- answers gives a named user reading when the older list names the user or the user's last entry with a
-- right grants reading or editing, and editing only when that last entry grants it; so the older list
-- never takes a right away and never gives editing. The rights that creators, managers and owners have
-- besides this map are not part of it.
pub normalize_access_users_lem :
    (u : Text) (raw : TextMap Access) (legacy : List Text)
    → let users = normalize_access_users raw (normalize_allowed_users legacy) in
      (reads (lookup u users)
        ≡ ((is_nonempty u && any (λ x. text_eq (trim x) u) legacy) || reads (given u raw none)))
      × (edits (lookup u users) ≡ edits (given u raw none))
unfolding normalize_access_users normalize_allowed_users
normalize_access_users_lem u raw legacy =
    let (r, e) = reads-add_readers u (distinct_names [] legacy) (add_users [] raw) in
    let added : lookup u (add_users [] raw) ≡ given u raw none =
      lookup-add_users u raw [] ∙ unfold lookup in refl in
    (r ∙ rw (text_in-distinct_names u legacy []) (rw added refl), e ∙ rw added refl)
