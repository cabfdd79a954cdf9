-- ===== src/Mock/Files/Deletes.antt =====
-- Deleting a whole tree.
use zen_fm.Base.{
  ◌≡◌, refl, ◌⊎◌, inl, inr, true, false, [], ◌∷◌, Option, none, some, if◌then◌else◌, Text,
  text_eq_iff, arith, Bool-cases,
}
use zen_fm.Mock.Files.{MockFile, FileMap, get, delete, has, within, delete_keys, delete_tree}
use zen_fm.Mock.Files.Maps.{IsMap, get-delete, delete-IsMap}

delete_keys_outside :
    (path q : Text) (keys files : FileMap)
    → IsMap files
    → within path q ≡ false
    → get q (delete_keys path keys files) ≡ get q files
unfolding delete_keys
delete_keys_outside path q [] files m h = refl
delete_keys_outside path q ((r, f) ∷ keys) files m h = elim (Bool-cases (within path r)) [
  | inl e ↦
      let ih = delete_keys_outside path q keys (delete r files) (delete-IsMap r files m) h in
      rw (e, delete_keys) (ground (arith, ih, get-delete r q files m, text_eq_iff r q))
  | inr e ↦ rw (e, delete_keys) (delete_keys_outside path q keys files m h)
]

delete_keys_inside :
    (path q : Text) (keys files : FileMap)
    → IsMap files
    → within path q ≡ true
    → (get q files ≡ none) ⊎ (has q keys ≡ true)
    → get q (delete_keys path keys files) ≡ none
unfolding delete_keys get
delete_keys_inside path q [] files m h k = ground arith
delete_keys_inside path q ((r, f) ∷ keys) files m h k = elim (Bool-cases (within path r)) [
  | inl e ↦
      rw (e, delete_keys)
        (delete_keys_inside path q keys (delete r files) (delete-IsMap r files m) h
          (ground (arith, get-delete r q files m, text_eq_iff r q)))
  | inr e ↦
      rw (e, delete_keys)
        (delete_keys_inside path q keys files m h (ground (arith, text_eq_iff r q)))
]

-- Deleting a tree takes away exactly its root and what lies below it.
pub get-delete_tree :
    (files : FileMap) (path q : Text)
    → IsMap files
    → get q (delete_tree files path) ≡ (if within path q then none else get q files)
unfolding delete_tree
get-delete_tree files path q m = elim (Bool-cases (within path q)) [
  | inl e ↦ rw e (delete_keys_inside path q files files m e (found (get q files) refl))
  | inr e ↦ rw e (delete_keys_outside path q files files m e)
]
  where
    found : (o : Option MockFile) → get q files ≡ o → (get q files ≡ none) ⊎ (has q files ≡ true)
    found none e = inl e
    found (some f) e = inr (ground (arith, e))
