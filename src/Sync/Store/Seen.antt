-- ===== src/Sync/Store/Seen.antt =====
-- The names of accepted operations: how many are kept, and which are deleted first.
use servidor_drive.Prelude.{
  ℕ, zero, suc, ◌-◌, ◌≤◌, String, ◌≡◌, refl, Bool, List, [], ◌∷◌, arith, eq_refl, length, take,
}
use servidor_drive.Prelude.Objects.{Object, remove, keys}
use servidor_drive.Sync.Store.{delete_all, forget_oldest, max_seen_operations}

module _ {ℓ} {V : Type ℓ} where
  remove_comm : (k j : String) (o : Object V) → remove k (remove j o) ≡ remove j (remove k o)
  unfolding remove
  remove_comm k j [] = refl
  remove_comm k j ((i, v) ∷ o) = ground (arith, remove_comm k j o)

  delete_all-remove :
      (ks : List String) (k : String) (o : Object V)
      → delete_all ks (remove k o) ≡ remove k (delete_all ks o)
  unfolding delete_all
  delete_all-remove [] k o = refl
  delete_all-remove (j ∷ ks) k o = rw (remove_comm j k o) (delete_all-remove ks k (remove j o))

  pub length-remove : (k : String) (o : Object V) → length (remove k o) ≤ length o
  unfolding remove
  length-remove k [] = omega arith
  length-remove k ((j, v) ∷ o) = ground (arith, length-remove k o)

  length-keys : (o : Object V) → length (keys o) ≡ length o
  length-keys [] = refl
  length-keys ((k, v) ∷ o) = omega (arith, length-keys o)

  remove_head : (k : String) (v : V) (o : Object V) → remove k ((k, v) ∷ o) ≡ remove k o
  unfolding remove
  remove_head k v o = simp eq_refl

  -- The first names are deleted, each with all that bears it.
  length-delete_all :
      (n : ℕ) (o : Object V) → length (delete_all (take n (keys o)) o) ≤ length o - n
  unfolding delete_all
  length-delete_all zero o = omega arith
  length-delete_all (suc n) [] = omega arith
  length-delete_all (suc n) ((k, v) ∷ o) = rw (remove_head k v o) (
      rw delete_all-remove
        (omega (arith, length-remove k (delete_all (take n (keys o)) o), length-delete_all n o)))

pub length-forget_oldest : (seen : Object Bool) → length (forget_oldest seen) ≤ max_seen_operations
unfolding forget_oldest
length-forget_oldest seen =
    omega
      (arith, length-keys seen, length-delete_all (length (keys seen) - max_seen_operations) seen)

-- Below the bound nothing is deleted.
pub forget_oldest_below :
    (seen : Object Bool) → length seen ≤ max_seen_operations → forget_oldest seen ≡ seen
unfolding forget_oldest delete_all
forget_oldest_below seen h =
    let e : length (keys seen) - max_seen_operations ≡ 0 = omega (arith, length-keys seen) in rw e
