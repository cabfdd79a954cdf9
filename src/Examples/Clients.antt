-- ===== src/Examples/Clients.antt =====
-- The HTTP client, at concrete inputs.
use zen_fm.Base.{
  ℕ, ◌≡◌, ◌≢◌, refl, true, false, [], ◌∷◌, ◌++◌, List, Option, none, some, Text, codes, arith,
  split_on, if◌then◌else◌, not, ◌&&◌,
}
use zen_fm.Client.{Client, set_csrf_from, api_error, problem_of}
use zen_fm.Client.Request
use zen_fm.Client.Request.{
  RequestOptions, Response, Value, HeaderName, complete, prepare, get_header, resolved, rejected,
  answered, syntax_error, csrf, is_safe, is_empty, method_or_get,
}
use zen_fm.Client.Csrf.{prepare-csrf, complete_keeps_session}
use zen_fm.Client.CopyStream
use zen_fm.Client.CopyStream.{copy_stream, CopyProgressEvent, ◌>>=◌, ended, newline}
use zen_fm.Client.Framing.{copy_stream-lines, consume_lines, concat}
use zen_fm.Client.Upload
use zen_fm.Client.Upload.Settling.{upload-settled, upload-IsWithin, first_decision, IsWithin}
use zen_fm.Client.Resumable
use zen_fm.Client.Resumable.{
  resumable_ends, resumable_stalled, resumable_cancelled, ends, stall_message,
}

abbrev signed_in : Client
signed_in = record {
  csrf_token = codes "t1";
  client_timeout_ms = 30_000;
  unauthorized_listeners = 7 ∷ [];
  notified = [];
}

abbrev deletion : RequestOptions
deletion = record {
  method = some Request.delete;
  headers = [];
  body = Request.no_body;
  wants_text = false;
  timeout_ms = none;
  skip_unauthorized_event = false;
}

abbrev answer_of : ℕ → Option Value → Response
answer_of status json = record {
  status = status;
  is_json = true;
  csrf_header = some (codes "t2");
  text = [];
  json = json;
}

abbrev denied : Value
denied = record { csrf_token = none; problem = problem_of (codes "Denied") 401; content = [] }

prepare-csrf_example : get_header csrf (prepare signed_in deletion).headers ≡ (
    if not (is_safe (method_or_get deletion.method)) && not (is_empty signed_in.csrf_token)
    then some signed_in.csrf_token
    else none)
prepare-csrf_example = prepare-csrf signed_in deletion refl

prepare-deletion : get_header csrf (prepare signed_in deletion).headers ≡ some (codes "t1")
unfolding prepare Request.name_code
prepare-deletion = refl

complete_keeps_session_example :
    ((complete signed_in deletion none (answered (answer_of 403 (some denied)))).0.csrf_token ≢ [])
    × ((complete signed_in deletion none (answered (answer_of 403 (some denied)))).0.notified ≡ [])
complete_keeps_session_example =
    complete_keeps_session signed_in deletion none (answered (answer_of 403 (some denied)))
      (λ h. absurd (omega (arith, h.0))) (λ e. cc)

abbrev done_value : Value
done_value = record { csrf_token = none; problem = problem_of [] 0; content = codes "[]" }

renewed :
    (complete signed_in deletion none (answered (answer_of 200 (some done_value)))).0.csrf_token
    ≡ codes "t2"
unfolding complete Request.accept_answer set_csrf_from
renewed = refl

-- Lines of a length: an empty one is no event, one of one character reports 5, others end the copy.
abbrev parse : Text → Option CopyProgressEvent
parse (a ∷ []) = some (record { copied_bytes = some 5; done = false; error = none })
parse s = some (record { copied_bytes = some 9; done = true; error = none })

-- The second line is cut in two.
abbrev chunks : List Text
chunks = codes "1" ∷ (10 ∷ codes "en") ∷ (codes "d" ++ 10 ∷ []) ∷ []

copy_stream-lines_example : copy_stream parse chunks ≡ (
    consume_lines parse (split_on newline (concat chunks)) (record { reported = []; done = false })
    >>= ended)
copy_stream-lines_example = copy_stream-lines parse chunks

copied : copy_stream parse chunks ≡ CopyStream.ok (record { reported = 5 ∷ 9 ∷ []; done = true })
unfolding copy_stream CopyStream.read_chunks CopyStream.drain CopyStream.consume
    CopyStream.break_line CopyStream.is_blank CopyStream.is_space
copied = refl

-- The server refuses the upload after a report, and the abort that follows changes nothing.
abbrev upload_course : List Upload.Event
upload_course = Upload.progress true 3 10 ∷ Upload.answered 409 none ∷ Upload.request_aborted ∷ []

upload-settled_example :
    (Upload.run upload_course (Upload.begin signed_in 10 none)).settled
    ≡ first_decision upload_course
upload-settled_example = upload-settled signed_in 10 none upload_course

refused : first_decision upload_course ≡ some (Upload.rejected (api_error 409 none))
unfolding first_decision Upload.Settling.decision
refused = refl

abbrev transfer : Resumable.Transfer
transfer = Resumable.run (Resumable.progressed 3 10 ∷ []) (Resumable.begin none)

resumable_stalled_example :
    (transfer.stall_timer ≡ true)
    × ((Resumable.handle Resumable.stalled transfer).settled ≡ true)
    × ((Resumable.handle Resumable.stalled transfer).callbacks
        ≡ Resumable.on_error stall_message ∷ transfer.callbacks)
    × ((Resumable.handle Resumable.stalled transfer).commands
        ≡ Resumable.abort false ∷ transfer.commands)
unfolding Resumable.run Resumable.begin Resumable.handle Resumable.is_all_sent
resumable_stalled_example = resumable_stalled none (Resumable.progressed 3 10 ∷ []) refl refl
