-- ===== src/Client/Resumable.antt =====
-- `uploadResumable` of frontend/src/api/client.ts: a resumable upload as a machine over what the
-- TUS library, the stall timer and the caller's signal deliver. The library is not modelled.
use zen_fm.Base.{
  ℕ, suc, ◌≡◌, Bool, true, false, not, ◌&&◌, List, [], ◌∷◌, Option, none, some, leb, ◌==◌,
  if◌then◌else◌, Text, codes, arith,
}
use zen_fm.Client.{Client}
use zen_fm.Client.Request.{is_empty}

pub data Callback : Type 0 where
  on_progress : (uploaded total : ℕ) → Callback
  on_success : Callback
  on_error : Text → Callback

-- What the code asks of the library.
pub data Command : Type 0 where
  resume_from start : Command
  abort : (terminate : Bool) → Command

-- Callbacks and commands are listed with the newest first.
pub record Transfer : Type 0 where
  pub settled : Bool
  pub stall_timer : Bool
  pub listening : Bool
  pub callbacks : List Callback
  pub commands : List Command

pub data Event : Type 0 where
  progressed : (uploaded total : ℕ) → Event
  succeeded : Event
  failed : Text → Event
  stalled : Event
  signal_aborted : (reason : Text) → Event
  found_previous : (some_upload : Bool) → Event

abbrev clear : Transfer → Transfer
clear t = record t { stall_timer = false; listening = false }

abbrev tell : Callback → Transfer → Transfer
tell c t = record t { callbacks = c ∷ t.callbacks }

abbrev ask : Command → Transfer → Transfer
ask c t = record t { commands = c ∷ t.commands }

abbrev settle : Callback → Transfer → Transfer
settle c t = if t.settled then t else tell c (clear (record t { settled = true }))

-- `signal?.aborted` cancels at once; else the signal is listened to and the stall timer is armed.
unfoldable pub begin : Option Text → Transfer
begin signal =
    let fresh : Transfer = record {
      settled = false;
      stall_timer = false;
      listening = false;
      callbacks = [];
      commands = [];
    } in
    elim signal [
      | some reason ↦ settle (on_error reason) (ask (abort true) fresh)
      | none ↦ record fresh { stall_timer = true; listening = true }
    ]

abbrev pub stall_message : Text
stall_message = codes "Upload stopped after 30 seconds without progress."

-- The timer and the signal do nothing where they have been cleared.
unfoldable pub handle : Event → Transfer → Transfer
handle (progressed uploaded total) t =
    tell (on_progress uploaded total) (record t { stall_timer = not (leb total uploaded) })
handle succeeded t = settle on_success t
handle (failed e) t = settle (on_error e) t
handle stalled t =
    if t.stall_timer
    then settle (on_error stall_message) (ask (abort false) (record t { stall_timer = false }))
    else t
handle (signal_aborted reason) t =
    if t.listening then settle (on_error reason) (ask (abort true) t) else t
handle (found_previous some_upload) t =
    if t.settled then t else ask start (if some_upload then ask resume_from t else t)

unfoldable pub run : List Event → Transfer → Transfer
run [] t = t
run (e ∷ es) t = run es (handle e t)

-- `onShouldRetry`; `offset` says that the answer has the header `Upload-Offset`, and `default` is the
-- library's own decision.
unfoldable pub on_should_retry : (status : Option ℕ) (offset default : Bool) → Bool
on_should_retry none offset default = default
on_should_retry (some status) offset default =
    if status == 501 then false else if (status == 409) && not offset then false else default

-- The headers of the library's requests.
unfoldable pub upload_token : Client → Option Text
upload_token c = if is_empty c.csrf_token then none else some c.csrf_token

-- How often the caller was told of an end.
unfoldable pub ends : List Callback → ℕ
ends [] = 0
ends (on_progress uploaded total ∷ cs) = ends cs
ends (on_success ∷ cs) = suc (ends cs)
ends (on_error e ∷ cs) = suc (ends cs)

-- Whether the newest report says that all bytes are sent.
unfoldable pub is_all_sent : List Callback → Bool
is_all_sent [] = false
is_all_sent (on_progress uploaded total ∷ cs) = leb total uploaded
is_all_sent (on_success ∷ cs) = is_all_sent cs
is_all_sent (on_error e ∷ cs) = is_all_sent cs

-- One end is told exactly when the upload is settled, and an upload that is neither settled nor
-- wholly sent is watched by the stall timer.
pub record IsWatched (t : Transfer) : Type 0 where
  pub counted : ends t.callbacks ≡ (if t.settled then 1 else 0)
  pub watched : (t.settled ≡ false) → (is_all_sent t.callbacks ≡ false) → t.stall_timer ≡ true
  pub heard : (t.settled ≡ false) → t.listening ≡ true

begin-IsWatched : (signal : Option Text) → IsWatched (begin signal)
unfolding begin ends is_all_sent
begin-IsWatched none = ground arith
begin-IsWatched (some reason) = ground arith

handle-IsWatched : (e : Event) (t : Transfer) → IsWatched t → IsWatched (handle e t)
unfolding handle ends is_all_sent
handle-IsWatched (progressed uploaded total) t v = ground arith
handle-IsWatched _ t v = ground arith

run-IsWatched : (es : List Event) (t : Transfer) → IsWatched t → IsWatched (run es t)
unfolding run
run-IsWatched [] t v = v
run-IsWatched (e ∷ es) t v = run-IsWatched es (handle e t) (handle-IsWatched e t v)

reached : (signal : Option Text) (es : List Event) → IsWatched (run es (begin signal))
reached signal es = run-IsWatched es (begin signal) (begin-IsWatched signal)

-- Whatever the library, the timer and the signal deliver, in any order, the caller is told of exactly
-- one end if the upload is settled, and of none if it is not.
pub resumable_ends :
    (signal : Option Text) (es : List Event)
    → let t = run es (begin signal) in ends t.callbacks ≡ (if t.settled then 1 else 0)
resumable_ends signal es = (reached signal es).counted

-- An upload that is neither settled nor wholly sent never waits for ever: its stall timer runs, and
-- the timer's expiry settles the upload, stops the library and tells the caller.
pub resumable_stalled :
    (signal : Option Text) (es : List Event)
    → (run es (begin signal)).settled ≡ false
    → is_all_sent (run es (begin signal)).callbacks ≡ false
    → let t = run es (begin signal) in
      let u = handle stalled t in
      (t.stall_timer ≡ true)
      × (u.settled ≡ true)
      × (u.callbacks ≡ on_error stall_message ∷ t.callbacks)
      × (u.commands ≡ abort false ∷ t.commands)
unfolding handle
resumable_stalled signal es s a =
    let armed = (reached signal es).watched s a in
    (armed, ground (arith, armed), ground (arith, armed), ground (arith, armed))

-- A signal that fires while the upload is not settled ends it with the signal's reason, and has the
-- server drop what it has.
pub resumable_cancelled :
    (signal : Option Text) (es : List Event) (reason : Text)
    → (run es (begin signal)).settled ≡ false
    → let t = run es (begin signal) in
      let u = handle (signal_aborted reason) t in
      (u.settled ≡ true)
      × (u.callbacks ≡ on_error reason ∷ t.callbacks)
      × (u.commands ≡ abort true ∷ t.commands)
unfolding handle
resumable_cancelled signal es reason s =
    let h = (reached signal es).heard s in (ground (arith, h), ground (arith, h), ground (arith, h))
