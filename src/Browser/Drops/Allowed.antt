-- ===== src/Browser/Drops/Allowed.antt =====
-- A drop proposes allowed moves only.
use zen_fm.Base.{
  ◌≡◌, ℕ, zero, suc, get_elem?, select, sym, refl, ap, ◌∙◌, inl, inr, Bool, true, false, Bool-cases,
  List, [], ◌∷◌, Option, none, some, if◌then◌else◌, Text, every, length, ltb, arith,
}
use zen_fm.Entries.{FileEntry, has_text}
use zen_fm.Browser.Selection.{selected_entries}
use zen_fm.Browser.Drops.{
  Shown, Drag, Proposal, move_all, move_one, can_move_to, entries_for_drag, all_can_move, propose,
  dropped, step,
}

abbrev pub IsAllowed : Option Proposal → Type 0
IsAllowed none = Unit
IsAllowed (some (move_all entries destination)) = all_can_move entries destination ≡ true
IsAllowed (some (move_one entry destination)) = can_move_to entry destination ≡ true

select-head :
    (q : FileEntry → Bool) (entries : List FileEntry) (first : FileEntry)
    → q first ≡ true
    → select q (first ∷ entries) ≡ first ∷ select q entries
select-head q entries first e = rw e refl

select-tail :
    (q : FileEntry → Bool) (entries : List FileEntry) (first : FileEntry)
    → q first ≡ false
    → select q (first ∷ entries) ≡ select q entries
select-tail q entries first e = rw e refl

every-head :
    (p : FileEntry → Bool) (entries : List FileEntry) (first : FileEntry)
    → every p (first ∷ entries) ≡ true
    → (p first ≡ true) × (every p entries ≡ true)
every-head p entries first h = (ground (arith, h), ground (arith, h))

-- What holds of all that are chosen holds of each that is.
every-chosen :
    (p q : FileEntry → Bool) (entries : List FileEntry) (i : ℕ) (entry : FileEntry)
    → get_elem? entries i ≡ some entry
    → q entry ≡ true
    → every p (select q entries) ≡ true
    → p entry ≡ true
every-chosen p q [] i entry g c h = absurd (cc)
every-chosen p q (first ∷ entries) zero entry g c h =
    let same : first ≡ entry = cc in
    let chosen : q first ≡ true = ap q same ∙ c in
    ap p (sym same)
    ∙ (every-head p (select q entries) first
        (ap (every p) (sym (select-head q entries first chosen)) ∙ h)).0
every-chosen p q (first ∷ entries) (suc i) entry g c h = elim (Bool-cases (q first)) [
  | inl e ↦
      every-chosen p q entries i entry g c
        (every-head p (select q entries) first
          (ap (every p) (sym (select-head q entries first e)) ∙ h)).1
  | inr e ↦
      every-chosen p q entries i entry g c (ap (every p) (sym (select-tail q entries first e)) ∙ h)
]

-- A dragged entry that is listed is one of those that are dragged.
dragged_can_move :
    (shown : Shown) (entry : FileEntry) (destination : Text) (i : ℕ)
    → get_elem? shown.selectable i ≡ some entry
    → all_can_move (entries_for_drag shown entry) destination ≡ true
    → can_move_to entry destination ≡ true
unfolding selected_entries
dragged_can_move shown entry destination i g h =
    elim (Bool-cases (has_text shown.selection.paths entry.path)) [
      | inl e ↦
          every-chosen (λ x. can_move_to x destination) (λ x. has_text shown.selection.paths x.path)
            shown.selectable i entry g e
            (ap
                (λ b.
                  all_can_move
                    (if b then selected_entries shown.selectable shown.selection else entry ∷ [])
                    destination)
                (sym e)
              ∙ h)
      | inr e ↦
          (every-head (λ x. can_move_to x destination) [] entry
            (ap
                (λ b.
                  all_can_move
                    (if b then selected_entries shown.selectable shown.selection else entry ∷ [])
                    destination)
                (sym e)
              ∙ h)).0
    ]

propose-IsAllowed :
    (shown : Shown) (entry : FileEntry) (destination : Text) (i : ℕ)
    → get_elem? shown.selectable i ≡ some entry
    → all_can_move (entries_for_drag shown entry) destination ≡ true
    → IsAllowed (some (propose (entries_for_drag shown entry) entry destination))
propose-IsAllowed shown entry destination i g h =
    elim (Bool-cases (ltb 1 (length (entries_for_drag shown entry)))) [
      | inl e ↦ rw e h
      | inr e ↦ rw e (dragged_can_move shown entry destination i g h)
    ]

-- For a dragged entry that is a listed file or folder: wherever it is dropped, and whatever is selected
-- then, the move that the page proposes afterwards passes `canMoveTo` for every entry that it would
-- move, if an earlier proposal did.
pub step-IsAllowed :
    (shown : Shown) (d : Drag) (entry : FileEntry) (has_files : Bool) (destination : Text) (i : ℕ)
    → d.dragged ≡ some entry
    → get_elem? shown.selectable i ≡ some entry
    → IsAllowed d.proposal
    → IsAllowed (step shown (dropped has_files destination) d).proposal
unfolding step
step-IsAllowed shown d entry has_files destination i e g a =
    elim (Bool-cases (all_can_move (entries_for_drag shown entry) destination)) [
      | inl h ↦ rw (e, h) (propose-IsAllowed shown entry destination i g h)
      | inr h ↦ rw (e, h) a
    ]
