-- ===== src/Dialogs/Editor/Losses.antt =====
-- What the dialog leaves behind when it closes.
use zen_fm.Base.{◌≡◌, ◌⊎◌, true, List, [], ◌∷◌, Option, none, some, Text, is_some}
use zen_fm.Dialogs.Editor.{
  Editor, Closing, closed, discarded, Event, loads, types, others_write, step,
}

-- The text of the query is what the server has, and a save on its way has the text shown.
abbrev pub IsRead : Option Text → Text → Type 0
IsRead none stored = Unit
IsRead (some text) stored = text ≡ stored

abbrev IsSaving : Option Text → Text → Type 0
IsSaving none value = Unit
IsSaving (some text) value = text ≡ value

-- Nothing was read, or the text shown is stored.
abbrev IsClean : Editor → Type 0
IsClean e = (e.data_read ≡ none) ⊎ (e.value ≡ e.stored)

abbrev IsSound : Editor → Type 0
IsSound e =
    ((e.editable ≡ true) ⊎ IsClean e) × IsRead e.data_read e.stored × IsSaving e.saving e.value

-- Once it has closed without discarding, the text shown is stored, or none was read.
abbrev pub IsKept : Option Closing → Editor → Type 0
IsKept none e = Unit
IsKept (some discarded) e = Unit
IsKept (some closed) e = (e.data_read ≡ none) ⊎ (e.value ≡ e.stored)

abbrev IsFine : Option Closing → Editor → Type 0
IsFine none e = IsSound e
IsFine (some discarded) e = Unit
IsFine (some closed) e = IsClean e

-- A step that leaves the dialog open and sound.
abbrev Stays : Editor → Type 0
Stays e = (e.closing ≡ none) × IsSound e

-- Nothing is typed while a save is on its way, a read then is not the first one, and what others write
-- is what was there.
abbrev pub IsCalm : Event → Editor → Type 0
IsCalm (types text) e = e.saving ≡ none
IsCalm (others_write text) e = text ≡ e.stored
IsCalm loads e = (e.saving ≡ none) ⊎ (is_some e.data_read ≡ true)
IsCalm event e = Unit

abbrev Fine : Editor → Type 0
Fine e = IsFine e.closing e

-- While a save is on its way nothing is typed and nothing is read for the first time, and nobody else
-- changes the file.
abbrev pub IsPatient : List Event → Editor → Type 0
unfolding step
IsPatient [] e = Unit
IsPatient (event ∷ events) e = IsCalm event e × IsPatient events (step event e)
