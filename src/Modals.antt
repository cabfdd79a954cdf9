-- ===== src/Modals.antt =====
-- frontend/src/modalNavigation.ts: a step back in the browser's history closes the dialog on top in
-- place of leaving the page. A dialog is known by a number. The hook's effect is `register`, its
-- cleanup `unregister`; the browser's history and its events are not modelled.
use zen_fm.Base.{
  ℕ, ◌≡◌, refl, Bool, true, false, List, [], ◌∷◌, ◌++◌, Option, none, some, ◌==◌, if◌then◌else◌,
  last?, arith,
}

pub record Modal : Type 0 where
  pub id : ℕ
  pub history_index : Option ℕ

-- The module's variables, with what it has done: the dialogs that were told to close and the jumps in
-- the history, as the index to go to and the index to come from, with the newest first, and whether
-- the last event was kept from the router.
pub record Modals : Type 0 where
  pub registrations : List Modal
  pub restoring_index : Option ℕ
  pub closed : List ℕ
  pub jumps : List (ℕ × ℕ)
  pub stopped : Bool

abbrev pub is_same : Option ℕ → Option ℕ → Bool
is_same (some a) (some b) = a == b
is_same _ _ = false

-- `window.history.go`, where both indices are known and differ.
unfoldable pub restore : Option ℕ → Option ℕ → Modals → Modals
restore (some index) (some target) n =
    if index == target
    then n
    else record n { restoring_index = some index; jumps = (index, target) ∷ n.jumps }
restore _ _ n = n

abbrev pub close : Modal → Modals → Modals
close active n = record n { closed = active.id ∷ n.closed; stopped = true }

-- `none` is a history state without an index.
unfoldable pub handle : Option ℕ → Modals → Modals
unfolding restore
handle target n =
    if is_same n.restoring_index target
    then record n { restoring_index = none; stopped = true }
    else elim (last? n.registrations) [
      | none ↦ record n { stopped = false }
      | some active ↦ close active (restore active.history_index target n)
    ]

abbrev pub or_current : Option ℕ → Option ℕ → Option ℕ
or_current (some index) current = some index
or_current none current = current

unfoldable pub register : (id : ℕ) → (current : Option ℕ) → Modals → Modals
register id current n = record n {
  registrations =
      n.registrations
      ++ record { id = id; history_index = or_current n.restoring_index current } ∷ [];
}

abbrev pub without : ℕ → List Modal → List Modal
without id [] = []
without id (m ∷ ms) = if m.id == id then ms else m ∷ without id ms

unfoldable pub unregister : (id : ℕ) → Modals → Modals
unregister id n = record n { registrations = without id n.registrations }

-- A step in the history from the index of the dialog on top to another one tells that dialog alone to
-- close and jumps back, and the jump's own event closes nothing: both events are kept from the
-- router.
pub handle-handle :
    (n : Modals) (m : Modal) (index target : ℕ)
    → last? n.registrations ≡ some m
    → m.history_index ≡ some index
    → n.restoring_index ≡ none
    → (index == target) ≡ false
    → let u = handle (some target) n in
      let v = handle (some index) u in
      (u.jumps ≡ (index, target) ∷ n.jumps)
      × (u.stopped ≡ true)
      × (v.stopped ≡ true)
      × (v.closed ≡ m.id ∷ n.closed)
      × (v.jumps ≡ u.jumps)
      × (v.restoring_index ≡ none)
unfolding handle restore
handle-handle n m index target top at free apart =
    (ground arith, ground arith, ground arith, ground arith, ground arith, ground arith)

last-append : (ms : List Modal) (m : Modal) → last? (ms ++ m ∷ []) ≡ some m
last-append [] m = refl
last-append (x ∷ []) m = refl
last-append (x ∷ y ∷ ms) m = last-append (y ∷ ms) m

-- The dialog that was opened last is the one that the next step in the history closes, unless that
-- step is the end of a jump.
pub handle-register :
    (n : Modals) (id : ℕ) (current target : Option ℕ)
    → is_same n.restoring_index target ≡ false
    → (handle target (register id current n)).closed ≡ id ∷ n.closed
unfolding handle register restore
handle-register n id current target h =
    let m : Modal = record { id = id; history_index = or_current n.restoring_index current } in
    ground (arith, last-append n.registrations m)
