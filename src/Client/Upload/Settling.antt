-- ===== src/Client/Upload/Settling.antt =====
-- How a direct upload ends, and what it reports until then.
use zen_fm.Base.{
  ℕ, ◌≤◌, ◌≡◌, refl, ◌∙◌, subst, false, List, [], ◌∷◌, Option, none, some, Option-cases, Text,
  codes, All, All-append, arith, inl, inr, ◌⊎◌, if◌then◌else◌,
}
use zen_fm.Client.{Client, api_error, abort_reason, problem_of}
use zen_fm.Client.Upload.{
  Sent, scaled, bytes, Outcome, resolved, rejected, Event, progress, network_error, request_aborted,
  answered, signal_aborted, Upload, handle, run, begin, is_success, progress_sent,
}

-- The outcome that an event decides for an upload that is not settled.
unfoldable pub decision : Event → Option Outcome
decision (progress computable loaded total) = none
decision network_error = some (rejected (api_error 0 (some (problem_of (codes "Upload failed") 0))))
decision request_aborted =
    some (rejected (api_error 408 (some (problem_of (codes "Upload interrupted") 408))))
decision (answered status problem) =
    some (if is_success status then resolved else rejected (api_error status problem))
decision (signal_aborted reason) = some (rejected (abort_reason reason))

unfoldable pub first_decision : List Event → Option Outcome
unfolding decision
first_decision [] = none
first_decision (e ∷ es) = elim (decision e) [ none ↦ first_decision es | some o ↦ some o ]

handle_settled :
    (e : Event) (u : Upload) (o : Outcome) → u.settled ≡ some o → (handle e u).settled ≡ some o
unfolding handle
handle_settled (progress computable loaded total) u o h = ground arith
handle_settled _ u o h = ground arith

-- A settled upload keeps its outcome, whatever happens later.
pub run_settled :
    (es : List Event) (u : Upload) (o : Outcome) → u.settled ≡ some o → (run es u).settled ≡ some o
unfolding run
run_settled [] u o h = h
run_settled (e ∷ es) u o h = run_settled es (handle e u) o (handle_settled e u o h)

handle_unsettled :
    (e : Event) (u : Upload)
    → u.settled ≡ none
    → u.signal ≡ none
    → ((handle e u).settled ≡ decision e) × (decision e ≡ none → (handle e u).signal ≡ none)
unfolding handle decision
handle_unsettled (progress computable loaded total) u h k = (ground arith, λ _. ground arith)
handle_unsettled network_error u h k = (ground arith, λ _. ground arith)
handle_unsettled request_aborted u h k = (ground arith, λ _. ground arith)
handle_unsettled (answered status problem) u h k = (ground arith, λ _. ground arith)
handle_unsettled (signal_aborted reason) u h k = (ground arith, λ d. absurd (cc))

run-first_decision :
    (es : List Event) (u : Upload)
    → u.settled ≡ none
    → u.signal ≡ none
    → (run es u).settled ≡ first_decision es
unfolding run first_decision
run-first_decision [] u h k = h
run-first_decision (e ∷ es) u h k = elim (Option-cases (decision e)) [
  | inl d ↦
      let (s, g) = handle_unsettled e u h k in
      rw (d, first_decision) (run-first_decision es (handle e u) (s ∙ d) (g d))
  | inr (o, d) ↦
      let (s, g) = handle_unsettled e u h k in
      rw (d, first_decision) (run_settled es (handle e u) o (s ∙ d))
]

-- An upload that begins ends by the first event that decides it, in the way that event says, and no
-- later event changes that; an upload whose signal has fired before is rejected with its reason.
pub upload-settled :
    (c : Client) (size : ℕ) (signal : Option Text) (es : List Event)
    → (run es (begin c size signal)).settled ≡ (elim signal as (λ s. Option Outcome) [
      | none ↦ first_decision es
      | some reason ↦ some (rejected (abort_reason reason))
    ])
unfolding begin
upload-settled c size none es = run-first_decision es (begin c size none) refl refl
upload-settled c size (some reason) es =
    run_settled es (begin c size (some reason)) (rejected (abort_reason reason)) refl

-- A report never exceeds the file: a part of the file is at most the whole of it.
abbrev pub IsWithin : ℕ → Sent → Type 0
IsWithin size (scaled part total) = part ≤ total
IsWithin size (bytes n) = n ≤ size

-- The request reports no more than it has announced.
abbrev pub IsHonest : Event → Type 0
IsHonest (progress computable part total) = (computable ≡ false) ⊎ (part ≤ total)
IsHonest _ = Unit {0}

handle-IsWithin :
    (e : Event) (u : Upload)
    → IsHonest e
    → All (IsWithin u.size) u.reports
    → All (IsWithin u.size) (handle e u).reports × ((handle e u).size ≡ u.size)
unfolding handle
handle-IsWithin (progress computable part total) u h a = ground (
  arith,
  All-append (IsWithin u.size) u.reports (progress_sent computable part total u.size ∷ []) a,
)
handle-IsWithin (answered status problem) u h a =
    ground (arith, All-append (IsWithin u.size) u.reports (bytes u.size ∷ []) a)
handle-IsWithin _ u h a = ground arith

run-IsWithin :
    (es : List Event) (u : Upload)
    → All IsHonest es
    → All (IsWithin u.size) u.reports
    → All (IsWithin u.size) (run es u).reports
unfolding run
run-IsWithin [] u h a = a
run-IsWithin (e ∷ es) u h a =
    let (w, same) = handle-IsWithin e u h.0 a in
    subst (λ n. All (IsWithin n) (run es (handle e u)).reports) same
      (run-IsWithin es (handle e u) h.1 (rw same w))

-- No progress report of an upload passes the size of its file.
pub upload-IsWithin :
    (c : Client) (size : ℕ) (signal : Option Text) (es : List Event)
    → All IsHonest es
    → All (IsWithin size) (run es (begin c size signal)).reports
unfolding begin
upload-IsWithin c size signal es h = run-IsWithin es (begin c size signal) h tt
