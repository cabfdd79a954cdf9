-- ===== src/Examples/Dialogs.antt =====
-- The dialogs for files, at concrete inputs.
use zen_fm.Base.{
  arith, leb, map, ◌&&◌, if◌then◌else◌, ℕ, ◌≡◌, ◌≤◌, ◌+◌, refl, true, false, [], ◌∷◌, List, Option,
  none, some, Text, codes, All, length, get_elem?, last?, ◌≢◌,
}
use zen_fm.Entries.{FileEntry, FileKind, has_text}
use zen_fm.Dialogs.Find.{
  run, open_find, move_find, previous_text_match, backward, summarize_text_matches, search,
  current_find_match,
}
use zen_fm.Dialogs.Find.Matches.{matches}
use zen_fm.Dialogs.Find.Counting.{summarize_text_matches-matches}
use zen_fm.Dialogs.Editor
use zen_fm.Dialogs.Editor.{open_editor, can_edit}
use zen_fm.Dialogs.Duplicate.{duplicate_name, candidate, parts_at, extension_at}
use zen_fm.Dialogs.Duplicate.Fresh.{duplicate_name-fresh, Taken}
use zen_fm.Dialogs.PathAction
use zen_fm.Dialogs.PathAction.{Job, State, Choice, Answer, Outcome, reset, CopyPlan}
use zen_fm.Dialogs.PathAction.Mutation.{Replies, mutate, run_dialog}
use zen_fm.Dialogs.PathAction.Once.{run_dialog-once, times_done}
use zen_fm.Dialogs.PathAction.Overwrites.{mutate-Asked, Asked}
use zen_fm.Dialogs.PathAction.Closing.{mutate-closes}
use zen_fm.Dialogs.PathAction.Completion.{mutate-done, EachDone}

abbrev entry_at : (path name : Text) → FileEntry
entry_at path name = record {
  name = name;
  path = path;
  kind = FileKind.file;
  size = 10;
  created_at = none;
  modified_at = [];
  mime_type = none;
  hidden = none;
  writable = none;
}

not_empty : {c : ℕ} {s : List ℕ} → c ∷ s ≢ []
not_empty e = cc

-- Lower case of ASCII.
abbrev unit : ℕ → ℕ
unit c = if leb 65 c && leb c 90 then c + 32 else c

abbrev lower : Text → Text
lower text = map unit text

second_marked :
    current_find_match (codes "AB") (search lower (codes "aBcAb") (codes "AB") (backward ∷ []))
    ≡ some (record { from = 3; to = 5 })
unfolding current_find_match run open_find move_find summarize_text_matches previous_text_match
    zen_fm.Base.text_eq zen_fm.Base.starts_with
second_marked = refl

summarize_text_matches-matches_example :
    summarize_text_matches (codes "aaab") (codes "aa") ≡ record {
      count = length (matches (codes "aaab") (codes "aa"));
      first = get_elem? (matches (codes "aaab") (codes "aa")) 0;
      last = last? (matches (codes "aaab") (codes "aa"));
    }
summarize_text_matches-matches_example =
    summarize_text_matches-matches (codes "aaab") (codes "aa") not_empty

abbrev report_entry : FileEntry
report_entry = entry_at (codes "/r.txt") (codes "r.txt")

abbrev taken_names : List Text
taken_names = codes "r.txt" ∷ codes "r copy.txt" ∷ []

duplicate_name-fresh_example :
    (skipped : ℕ) × (Taken skipped
      (parts_at report_entry.name (extension_at report_entry))
      taken_names
      1)
    × (has_text taken_names
          (candidate (parts_at report_entry.name (extension_at report_entry)) (1 + skipped))
        ≡ false)
    × (duplicate_name report_entry taken_names
        ≡ some (
          candidate (parts_at report_entry.name (extension_at report_entry)) (1 + skipped),
          candidate (parts_at report_entry.name (extension_at report_entry)) (1 + skipped)
              ∷ taken_names,
        ))
duplicate_name-fresh_example = duplicate_name-fresh report_entry taken_names

second_copy :
    duplicate_name report_entry taken_names
    ≡ some (codes "r copy 2.txt", codes "r copy 2.txt" ∷ taken_names)
unfolding duplicate_name zen_fm.Base.text_eq
second_copy = refl

-- Two files, the second of which is in conflict at first.
abbrev two_entries : List FileEntry
two_entries = entry_at (codes "/a") (codes "a") ∷ entry_at (codes "/b") (codes "b") ∷ []

abbrev copy_job : Job
copy_job = record {
  action = PathAction.PathAction.copy;
  entries = two_entries;
  copy_destination = some (codes "/d");
  destination = [];
}

abbrev answer_of : Outcome → Answer
answer_of outcome = record { reports = (4, 1) ∷ []; outcome = outcome; ended_at = 2 }

abbrev replies_of : List Answer → Replies
replies_of answers = record {
  measured = some (record { bytes = (codes "/a", 10) ∷ (codes "/b", 10) ∷ []; total_bytes = 20 });
  listing = λ parent. none;
  started_at = 0;
  answers = answers;
}

abbrev gentle : Choice
gentle = record { overwrite = false; duplicate = false }

abbrev forceful : Choice
forceful = record { overwrite = true; duplicate = false }

abbrev first_replies : Replies
first_replies = replies_of (answer_of Outcome.done ∷ answer_of Outcome.conflict ∷ [])

abbrev then_replies : Replies
then_replies = replies_of (answer_of Outcome.done ∷ [])

run_dialog-once_example :
    times_done
      (codes "/a")
      (run_dialog copy_job ((gentle, first_replies) ∷ (forceful, then_replies) ∷ []) reset)
    ≤ 1
run_dialog-once_example =
    run_dialog-once copy_job ((gentle, first_replies) ∷ (forceful, then_replies) ∷ []) (codes "/a")

abbrev conflicted : State
conflicted = record {
  completed = codes "/a" ∷ [];
  conflict_path = some (codes "/b");
  copy_plan = then_replies.measured;
  copy_progress = none;
}

mutate-Asked_example :
    All
      (Asked forceful (some (codes "/b")))
      (mutate copy_job forceful then_replies conflicted).calls
mutate-Asked_example = mutate-Asked copy_job forceful then_replies conflicted

closes : (mutate copy_job forceful then_replies conflicted).status ≡ PathAction.going
unfolding mutate zen_fm.Base.text_eq
closes = refl

mutate-done_example :
    EachDone conflicted two_entries (mutate copy_job forceful then_replies conflicted)
mutate-done_example = mutate-done copy_job forceful then_replies conflicted closes

-- The first read fails, and the first save.
abbrev edits : List Editor.Event
edits =
    Editor.loads_fail
    ∷ Editor.reloads
    ∷ Editor.loads
    ∷ Editor.types (codes "new")
    ∷ Editor.requests_close
    ∷ Editor.saves_and_closes
    ∷ Editor.fails
    ∷ Editor.saves
    ∷ Editor.loads
    ∷ Editor.succeeds
    ∷ []

abbrev opened : Editor.Editor
opened = open_editor true (codes "old") none (codes "other")

saved : (Editor.run edits opened).stored ≡ codes "new"
unfolding Editor.run zen_fm.Base.text_eq
saved = refl

-- A key pressed while a save is on its way is lost: the dialog closes, and shows as read what was not
-- saved.
typed_while_saving :
    Editor.run
      (Editor.loads ∷ Editor.saves ∷ Editor.types (codes "new") ∷ Editor.succeeds ∷ [])
      opened
    ≡ record {
      editable = true;
      data_read = some (codes "new");
      read_failed = false;
      value = codes "new";
      confirm_close = false;
      saving = none;
      stored = codes "old";
      closing = some Editor.closed;
    }
unfolding Editor.run
typed_while_saving = refl

-- After a read that failed the save writes the text of the entry edited before.
saved_unread :
    (Editor.run (Editor.loads_fail ∷ Editor.saves ∷ Editor.succeeds ∷ []) opened).stored
    ≡ codes "other"
unfolding Editor.run
saved_unread = refl

-- A text typed over an old one of the cache is replaced when the read arrives.
typed_over_cache :
    (Editor.run
      (Editor.types (codes "new") ∷ Editor.loads ∷ [])
      (open_editor true (codes "now") (some (codes "old")) [])).value
    ≡ codes "now"
unfolding Editor.run zen_fm.Base.text_eq
typed_over_cache = refl

editable_text : can_edit (λ t. t) report_entry ≡ true
unfolding can_edit zen_fm.Base.text_eq
editable_text = refl

abbrev good_replies : Replies
good_replies = replies_of (answer_of Outcome.done ∷ answer_of Outcome.done ∷ [])

mutate-closes_example :
    ((mutate copy_job gentle good_replies reset).status ≡ PathAction.going)
    × EachDone reset two_entries (mutate copy_job gentle good_replies reset)
mutate-closes_example =
    mutate-closes copy_job gentle good_replies reset refl refl (refl, (refl, tt)) (omega arith)
