-- ===== src/Entries.antt =====
-- The entries of a folder: `FileKind` and `FileEntry` in frontend/src/api/types.ts.
use zen_fm.Base.{ℕ, Bool, true, false, List, [], ◌∷◌, Option, Text, text_eq, ◌||◌}

pub data FileKind : Type 0 where
  file directory symlink special : FileKind

pub record FileEntry : Type 0 where
  pub name : Text
  pub path : Text
  pub kind : FileKind
  pub size : ℕ
  pub created_at : Option Text
  pub modified_at : Text
  pub mime_type : Option Text
  pub hidden : Option Bool
  pub writable : Option Bool

abbrev pub is_directory : FileKind → Bool
is_directory FileKind.directory = true
is_directory FileKind.file = false
is_directory FileKind.symlink = false
is_directory FileKind.special = false

abbrev pub is_file : FileKind → Bool
is_file FileKind.file = true
is_file FileKind.directory = false
is_file FileKind.symlink = false
is_file FileKind.special = false

abbrev pub is_special : FileKind → Bool
is_special FileKind.special = true
is_special FileKind.file = false
is_special FileKind.directory = false
is_special FileKind.symlink = false

-- `has` of a set of texts, which is the list of its members.
abbrev pub has_text : List Text → Text → Bool
has_text [] text = false
has_text (t ∷ texts) text = text_eq t text || has_text texts text
