-- ===== src/Dialogs/Editor.antt =====
-- `FileEditorDialog` in frontend/src/components/FileDialogs.tsx, and the entries that it edits. The
-- content that the server has is part of the state, `toLowerCase` is a parameter, and what the query of
-- the text goes through is given as events.
pub mod Losses
use zen_fm.Base.{
  ℕ, Bool, true, false, not, ◌&&◌, ◌||◌, List, [], ◌∷◌, Option, none, some, leb, if◌then◌else◌,
  Text, codes, text_eq, starts_with, contains, split_on, last?, is_some,
}
use zen_fm.Entries.{FileEntry, is_file, has_text}

abbrev pub max_editable_text_bytes : ℕ
max_editable_text_bytes = 4194304

abbrev pub text_extensions : List Text
text_extensions =
    codes "txt"
    ∷ codes "md"
    ∷ codes "markdown"
    ∷ codes "json"
    ∷ codes "yaml"
    ∷ codes "yml"
    ∷ codes "toml"
    ∷ codes "ini"
    ∷ codes "log"
    ∷ codes "csv"
    ∷ codes "xml"
    ∷ codes "html"
    ∷ codes "css"
    ∷ codes "js"
    ∷ codes "ts"
    ∷ codes "tsx"
    ∷ codes "jsx"
    ∷ codes "lua"
    ∷ codes "go"
    ∷ codes "sh"
    ∷ []

abbrev pub text_or_nothing : Option Text → Text
text_or_nothing none = []
text_or_nothing (some text) = text

abbrev pub is_text_type : Option Text → Bool
is_text_type none = false
is_text_type (some mime_type) = starts_with mime_type (codes "text/")

module _ (lower : Text → Text) where
  unfoldable pub extension : Text → Text
  unfolding split_on
  extension path = lower (text_or_nothing (last? (split_on 0x2e path)))

  unfoldable pub is_text_entry : FileEntry → Bool
  unfolding extension contains
  is_text_entry entry =
      is_file entry.kind
      && (is_text_type entry.mime_type
          || not (contains 0x2e entry.name)
          || has_text text_extensions (extension entry.name))

  unfoldable pub can_edit : FileEntry → Bool
  unfolding is_text_entry
  can_edit entry = is_text_entry entry && leb entry.size max_editable_text_bytes

pub data Closing : Type 0 where
  closed discarded : Closing

-- `data_read` is the data of the query and `read_failed` its error, `saving` the text of a save on its
-- way, `stored` what the server has.
pub record Editor : Type 0 where
  pub editable : Bool
  pub data_read : Option Text
  pub read_failed : Bool
  pub value : Text
  pub confirm_close : Bool
  pub saving : Option Text
  pub stored : Text
  pub closing : Option Closing

-- The effect on the entry and on the data.
abbrev pub value_after_read : Option Text → (value : Text) → Text
value_after_read none value = value
value_after_read (some text) value = text

-- The dialog for an entry: `cached` is what the query's cache has for it, `left` the text of the entry
-- edited before.
abbrev pub open_editor :
    (editable : Bool) → (stored : Text) → (cached : Option Text) → Text → Editor
open_editor editable stored cached left = record {
  editable = editable;
  data_read = cached;
  read_failed = false;
  value = value_after_read cached left;
  confirm_close = false;
  saving = none;
  stored = stored;
  closing = none;
}

-- The query is pending without data and without an error.
abbrev pub is_pending : Editor → Bool
is_pending e = not (is_some e.data_read) && not e.read_failed

abbrev pub differs : Option Text → Text → Bool
differs none value = false
differs (some text) value = not (text_eq value text)

abbrev pub dirty : Editor → Bool
dirty e = e.editable && differs e.data_read e.value

abbrev pub request_close : Editor → Editor
request_close e =
    if is_some e.saving
    then e
    else if dirty e
    then record e { confirm_close = true }
    else record e { closing = some closed }

abbrev pub discard_and_close : Editor → Editor
discard_and_close e = record e {
  value = text_or_nothing e.data_read;
  confirm_close = false;
  closing = some discarded;
}

-- The button of the dialog; after a read that failed it is enabled as well.
abbrev pub save : Editor → Editor
save e =
    if e.editable && not (is_some e.saving) && not (is_pending e)
    then record e { saving = some e.value }
    else e

-- The buttons of the question: to save, and to discard.
abbrev pub save_and_close : Editor → Editor
save_and_close e =
    if e.confirm_close && not (is_some e.saving) then record e { saving = some e.value } else e

abbrev pub discard : Editor → Editor
discard e = if e.confirm_close then discard_and_close e else e

-- The callback is that of the last rendering, and reads the text shown then.
abbrev pub on_success : Option Text → Editor → Editor
on_success none e = e
on_success (some text) e = record e {
  stored = text;
  data_read = some e.value;
  read_failed = false;
  saving = none;
  confirm_close = false;
  closing = some closed;
}

-- The text is edited where it is shown.
abbrev pub type_text : Text → Editor → Editor
type_text text e =
    if e.editable && not (is_pending e) && not e.read_failed then record e { value = text } else e

-- New data sets the text, and data equal to the old is none.
abbrev pub changes : Option Text → Text → Bool
changes none text = true
changes (some old) text = not (text_eq old text)

-- A read that succeeds; the query is enabled for an entry that can be edited.
abbrev pub load : Editor → Editor
load e =
    if e.editable
    then record e {
      data_read = some e.stored;
      read_failed = false;
      value = if changes e.data_read e.stored then e.stored else e.value;
    }
    else e

abbrev pub load_fails : Editor → Editor
load_fails e = if e.editable then record e { read_failed = true } else e

-- Reading again makes a query without data pending.
abbrev pub reload : Editor → Editor
reload e = if is_some e.data_read then e else record e { read_failed = false }

-- `others_write` is a change of the file by someone else.
pub data Event : Type 0 where
  reloads loads loads_fail requests_close keeps discards saves saves_and_closes succeeds fails :
      Event
  types others_write : Text → Event

abbrev pub react : Event → Editor → Editor
react reloads e = reload e
react loads e = load e
react loads_fail e = load_fails e
react requests_close e = request_close e
react keeps e = record e { confirm_close = false }
react discards e = discard e
react saves e = save e
react saves_and_closes e = save_and_close e
react succeeds e = on_success e.saving e
react fails e = record e { saving = none }
react (types text) e = type_text text e
react (others_write text) e = record e { stored = text }

-- A dialog that is closed hears of nothing.
abbrev pub when_open : Option Closing → (now next : Editor) → Editor
when_open none now next = next
when_open (some closing) now next = now

unfoldable pub step : Event → Editor → Editor
step event e = when_open e.closing e (react event e)

unfoldable pub run : List Event → Editor → Editor
unfolding step
run [] e = e
run (event ∷ events) e = run events (step event e)
