-- ===== src/Client/Upload.antt =====
-- `uploadWithProgress` of frontend/src/api/client.ts: one direct upload as a machine over the events
-- of its request and of the caller's signal.
pub mod Settling
use zen_fm.Base.{
  ℕ, ◌≤◌, ◌≡◌, refl, ◌∙◌, ◌≢◌, Bool, true, false, not, ◌&&◌, ◌||◌, List, [], ◌∷◌, ◌++◌, Option,
  none, some, leb, ltb, ◌==◌, if◌then◌else◌, Text, codes, min, All, All-append, arith, is_some,
  Bool-cases, inl, inr,
}
use zen_fm.Client.{
  Client, Failure, api_error, abort_reason, ProblemDetails, problem_of, forget_session,
}
use zen_fm.Client.Request.{
  HeaderName, accept, content_type, content_encoding, if_none_match, csrf, Headers, set_header,
  get_header, is_empty, name_code,
}

-- What is reported: a part of the file as `loaded / total * file.size`, or a number of bytes.
pub data Sent : Type 0 where
  scaled : (loaded total : ℕ) → Sent
  bytes : ℕ → Sent

pub data Outcome : Type 0 where
  resolved : Outcome
  rejected : Failure → Outcome

pub data Event : Type 0 where
  progress : (computable : Bool) (loaded total : ℕ) → Event
  network_error : Event
  request_aborted : Event
  answered : (status : ℕ) → Option ProblemDetails → Event
  signal_aborted : (reason : Text) → Event

-- `signal` is the reason of the caller's signal once it has fired.
pub record Upload : Type 0 where
  pub client : Client
  pub size : ℕ
  pub settled : Option Outcome
  pub signal : Option Text
  pub reports : List Sent

-- `settled` guards the callback, and ends the listening to the signal.
abbrev pub finish : Outcome → Upload → Upload
finish o u = if is_some u.settled then u else record u { settled = some o }

abbrev pub report : Sent → Upload → Upload
report s u = record u { reports = u.reports ++ s ∷ [] }

abbrev pub progress_sent : Bool → ℕ → ℕ → ℕ → Sent
progress_sent computable loaded total size =
    if computable && ltb 0 total then scaled loaded total else bytes (min loaded size)

abbrev pub abort_failure : Option Text → Failure
abort_failure (some reason) = abort_reason reason
abort_failure none = api_error 408 (some (problem_of (codes "Upload interrupted") 408))

abbrev pub is_success : ℕ → Bool
is_success status = leb 200 status && ltb status 300

abbrev pub on_load : ℕ → Option ProblemDetails → Upload → Upload
on_load status problem u =
    if is_success status
    then finish resolved (report (bytes u.size) u)
    else finish (rejected (api_error status problem))
        (record u { client = if status == 401 then forget_session u.client else u.client })

-- Aborting the request makes it report the abort at once; by then the signal has fired.
unfoldable pub handle : Event → Upload → Upload
handle (progress computable loaded total) u =
    if is_some u.settled then u else report (progress_sent computable loaded total u.size) u
handle network_error u =
    finish (rejected (api_error 0 (some (problem_of (codes "Upload failed") 0)))) u
handle request_aborted u = finish (rejected (abort_failure u.signal)) u
handle (answered status problem) u = on_load status problem u
handle (signal_aborted reason) u =
    finish (rejected (abort_reason reason)) (record u { signal = some reason })

unfoldable pub run : List Event → Upload → Upload
run [] u = u
run (e ∷ es) u = run es (handle e u)

-- The upload begins unless the signal has fired before.
unfoldable pub begin : Client → ℕ → Option Text → Upload
begin c size signal = record {
  client = c;
  size = size;
  settled = elim signal [ none ↦ none | some reason ↦ some (rejected (abort_reason reason)) ];
  signal = signal;
  reports = [];
}

-- The headers that the upload sends.
unfoldable pub upload_headers :
    Client → (file_type : Text) → (overwrite : Bool) → (encoding : Option Text) → Headers
upload_headers c file_type overwrite encoding =
    let typed =
      (accept, codes "application/json")
      ∷ (content_type, if is_empty file_type then codes "application/octet-stream" else file_type)
      ∷ [] in
    let encoded : Headers = elim encoding [
      | none ↦ typed
      | some e ↦ set_header content_encoding e typed
    ] in
    let guarded = if overwrite then encoded else set_header if_none_match (codes "*") encoded in
    if is_empty c.csrf_token then guarded else set_header csrf c.csrf_token guarded
