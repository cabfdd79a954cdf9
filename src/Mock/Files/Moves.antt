-- ===== src/Mock/Files/Moves.antt =====
-- Copying and moving a whole tree.
use zen_fm.Base.{
  ◌≡◌, refl, ap, sym, subst, ◌∙◌, inl, inr, Bool, true, false, [], ◌∷◌, ◌++◌, Option, none, some,
  if◌then◌else◌, Text, text_eq, text_eq_iff, text_eq_refl, starts_with-split, starts_with-append,
  length, drop, arith, if_both, Bool-cases, append_assoc, append-nil, ==_refl,
}
use zen_fm.Paths.{slash}
use zen_fm.Mock.Files.{
  MockFile, FileMap, get, set, within, copy_entries, copy_tree, ok, delete_tree,
}
use zen_fm.Mock.Files.Deletes.{get-delete_tree}
use zen_fm.Mock.Files.Maps.{IsMap, get-set, set-IsMap}

-- The end of a path behind a folder: nothing, or a slash and more.
abbrev pub IsSuffix : Text → Type 0
IsSuffix [] = Unit {0}
IsSuffix (c ∷ s) = c ≡ slash

text_eq-append : (a u t : Text) → text_eq (a ++ u) (a ++ t) ≡ text_eq u t
unfolding text_eq
text_eq-append [] u t = refl
text_eq-append (c ∷ a) u t = ground (arith, ==_refl c, text_eq-append a u t)

drop-append : (a u : Text) → drop (length a) (a ++ u) ≡ u
drop-append [] u = refl
drop-append (c ∷ a) u = drop-append a u

pub within-append : (a u : Text) → IsSuffix u → within a (a ++ u) ≡ true
unfolding within
within-append a [] h = ground (arith, append-nil a, text_eq_refl a)
within-append a (c ∷ u) h =
    ground (arith, starts_with-append (a ++ slash ∷ []) u, append_assoc a (slash ∷ []) u)

pub within-split : (a p : Text) → within a p ≡ true → (u : Text) × IsSuffix u × (p ≡ a ++ u)
unfolding within
within-split a p h = elim (Bool-cases (text_eq p a)) [
  | inl e ↦ ([], tt, (text_eq_iff p a).0 e ∙ sym (append-nil a))
  | inr e ↦
      let (r, f) = starts_with-split p (a ++ slash ∷ []) (ground arith) in
      (slash ∷ r, refl, f ∙ append_assoc a (slash ∷ []) r)
]

-- A path below a folder differs from one that is not below it.
apart_of : (a q r : Text) → within a q ≡ false → within a r ≡ true → text_eq r q ≡ false
apart_of a q r out inside = elim (Bool-cases (text_eq r q)) [
  | inl e ↦
      let f : within a r ≡ within a q = ap (within a) ((text_eq_iff r q).0 e) in
      let x : true ≡ false = sym inside ∙ f ∙ out in cc
  | inr e ↦ e
]

copy_entries_outside :
    (source destination q : Text) (snapshot files : FileMap)
    → within destination q ≡ false
    → get q (copy_entries source destination snapshot files) ≡ get q files
unfolding copy_entries
copy_entries_outside source destination q [] files h = refl
copy_entries_outside source destination q ((p, f) ∷ snapshot) files h =
    elim (Bool-cases (within source p)) [
      | inl e ↦
          let (u, suffix, same) = within-split source p e in
          let target : drop (length source) p ≡ u = rw same (drop-append source u) in
          let apart : text_eq (destination ++ u) q ≡ false =
            apart_of destination q (destination ++ u) h (within-append destination u suffix) in
          rw (e, target, copy_entries)
            (copy_entries_outside source destination q snapshot (set (destination ++ u) f files) h
              ∙ get-set (destination ++ u) q f files
              ∙ ap (λ b. if b then some f else get q files) apart)
      | inr e ↦ rw (e, copy_entries) (copy_entries_outside source destination q snapshot files h)
    ]

abbrev pub or_get : Option MockFile → Option MockFile → Option MockFile
or_get (some f) old = some f
or_get none old = old

merge :
    (b : Bool) (f : MockFile) (o old : Option MockFile)
    → (b ≡ true → o ≡ none)
    → or_get o (if b then some f else old) ≡ or_get (if b then some f else o) old
merge true f o old k = rw (k refl) refl
merge false f o old k = refl

below_of : (a q r : Text) → within a q ≡ false → within a r ≡ true → text_eq q r ≡ false
below_of a q r out inside = elim (Bool-cases (text_eq q r)) [
  | inl e ↦
      let f : within a r ≡ within a q = ap (within a) (sym ((text_eq_iff q r).0 e)) in
      let x : true ≡ false = sym inside ∙ f ∙ out in cc
  | inr e ↦ e
]

copy_entries_inside :
    (source destination t : Text) (snapshot files : FileMap)
    → IsMap snapshot
    → IsSuffix t
    → get (destination ++ t) (copy_entries source destination snapshot files)
      ≡ or_get (get (source ++ t) snapshot) (get (destination ++ t) files)
unfolding copy_entries get
copy_entries_inside source destination t [] files m h = refl
copy_entries_inside source destination t ((p, f) ∷ snapshot) files m h =
    elim (Bool-cases (within source p)) [
      | inl e ↦
          let (u, suffix, same) = within-split source p e in
          let target : drop (length source) p ≡ u = rw same (drop-append source u) in
          let ih =
            copy_entries_inside source destination t snapshot (set (destination ++ u) f files) m.1
              h in
          let here : text_eq p (source ++ t) ≡ text_eq u t = rw same (text_eq-append source u t) in
          let once : text_eq u t ≡ true → get (source ++ t) snapshot ≡ none = λ k.
            subst (λ x. get (source ++ x) snapshot ≡ none) ((text_eq_iff u t).0 k)
              (subst (λ x. get x snapshot ≡ none) same m.0) in
          rw (e, target, copy_entries, here)
            (ih
              ∙ ap (or_get (get (source ++ t) snapshot)) (
                  get-set (destination ++ u) (destination ++ t) f files
                  ∙ ap (λ b. if b then some f else get (destination ++ t) files)
                      (text_eq-append destination u t))
              ∙ merge (text_eq u t) f (get (source ++ t) snapshot) (get (destination ++ t) files)
                  once)
      | inr e ↦
          let here : text_eq p (source ++ t) ≡ false =
            below_of source p (source ++ t) e (within-append source t h) in
          rw (e, copy_entries, here) (copy_entries_inside source destination t snapshot files m.1 h)
    ]

copied_entries :
    (files copied : FileMap) (source destination : Text)
    → copy_tree files source destination ≡ ok copied
    → copy_entries source destination files files ≡ copied
unfolding copy_tree
copied_entries files copied source destination h = ground arith

-- A copy that succeeds leaves every path outside its destination as it was.
pub copy_tree_outside :
    (files copied : FileMap) (source destination q : Text)
    → copy_tree files source destination ≡ ok copied
    → within destination q ≡ false
    → get q copied ≡ get q files
copy_tree_outside files copied source destination q h out =
    rw (← copied_entries files copied source destination h)
      (copy_entries_outside source destination q files files out)

-- A copy that succeeds gives each path of the destination the node of the source's path with the same
-- end, or keeps what stood there if the source has no such path.
pub copy_tree_inside :
    (files copied : FileMap) (source destination t : Text)
    → IsMap files
    → copy_tree files source destination ≡ ok copied
    → IsSuffix t
    → get (destination ++ t) copied
      ≡ or_get (get (source ++ t) files) (get (destination ++ t) files)
copy_tree_inside files copied source destination t m h suffix =
    rw (← copied_entries files copied source destination h)
      (copy_entries_inside source destination t files files m suffix)

copy_entries-IsMap :
    (source destination : Text) (snapshot files : FileMap)
    → IsMap files
    → IsMap (copy_entries source destination snapshot files)
unfolding copy_entries
copy_entries-IsMap source destination [] files m = m
copy_entries-IsMap source destination ((p, f) ∷ snapshot) files m =
    copy_entries-IsMap source destination snapshot _ (
      if_both IsMap (within source p) (set-IsMap (destination ++ drop (length source) p) f files m)
        m)

-- A move is a copy and the deletion of the source. Where the destination does not lie in the source,
-- each path of the destination has the node of the source's path, and the source has none left.
pub delete_tree-copy_tree :
    (files copied : FileMap) (source destination t : Text) (f : MockFile)
    → IsMap files
    → copy_tree files source destination ≡ ok copied
    → IsSuffix t
    → get (source ++ t) files ≡ some f
    → within source (destination ++ t) ≡ false
    → (get (destination ++ t) (delete_tree copied source) ≡ some f)
      × (get (source ++ t) (delete_tree copied source) ≡ none)
delete_tree-copy_tree files copied source destination t f m h suffix here apart =
    let mc =
      subst IsMap (copied_entries files copied source destination h)
        (copy_entries-IsMap source destination files files m) in
    (
      get-delete_tree copied source (destination ++ t) mc
          ∙ ap (λ b. if b then none else get (destination ++ t) copied) apart
          ∙ copy_tree_inside files copied source destination t m h suffix
          ∙ ap (λ o. or_get o (get (destination ++ t) files)) here,
      get-delete_tree copied source (source ++ t) mc
          ∙ ap (λ b. if b then none else get (source ++ t) copied) (within-append source t suffix),
    )

-- A move into the moved folder itself loses the whole tree: nothing of the source is left, and nothing
-- of the copy either.
pub move_into_itself :
    (files copied : FileMap) (source destination q : Text)
    → IsMap files
    → copy_tree files source destination ≡ ok copied
    → within source q ≡ true
    → within source destination ≡ true
    → (get q (delete_tree copied source) ≡ none)
      × (get destination (delete_tree copied source) ≡ none)
move_into_itself files copied source destination q m h below into =
    let mc =
      subst IsMap (copied_entries files copied source destination h)
        (copy_entries-IsMap source destination files files m) in
    (
      get-delete_tree copied source q mc ∙ ap (λ b. if b then none else get q copied) below,
      get-delete_tree copied source destination mc
          ∙ ap (λ b. if b then none else get destination copied) into,
    )
