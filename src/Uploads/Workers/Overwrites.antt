-- ===== src/Uploads/Workers/Overwrites.antt =====
-- A file of the server is overwritten only by a batch that was told to.
use zen_fm.Base.{
  ℕ, zero, suc, ◌+◌, ◌≡◌, refl, ◌⊎◌, inr, Bool, true, false, List, [], ◌∷◌, min, get_or, total,
  total-set, total-append, arith, All,
}
use zen_fm.Uploads.Workers.{
  replace_all, skip_all, cancel, Worker, ready, returned, threw, sending, deciding, Verdict,
  uploaded, skipped, Engine, begin, is_replace, Event, goes_on, sent, conflicts, fails, decides,
  cancels, react, worker_of, step, run, replicate,
}
use zen_fm.Uploads.Workers.Exactness.{worker_in, one_if}

abbrev pub overwriting : Worker → ℕ
overwriting (sending file overwrite) = one_if overwrite
overwriting other = 0

abbrev pub overwritten : ℕ × Verdict → ℕ
overwritten (file, uploaded overwrite) = one_if overwrite
overwritten (file, skipped) = 0

-- Unless the policy is to replace, no upload overwrites and none has.
abbrev IsGuarded : Engine → Type 0
IsGuarded e =
    (is_replace e.policy ≡ true) ⊎ (total overwriting e.workers + total overwritten e.finished ≡ 0)

react-IsGuarded :
    (event : Event) (x : Worker) (e : Engine)
    → IsGuarded e
    → get_or e.workers (worker_of event) returned ≡ x
    → IsGuarded (react event x e)
react-IsGuarded (goes_on w) ready e v q = ground (
  arith,
  worker_in e.workers w,
  total-set overwriting e.workers w (sending e.next_file (is_replace e.policy)) returned,
  total-set overwriting e.workers w returned returned,
)
react-IsGuarded (sent w) (sending file overwrite) e v q = ground (
  arith,
  worker_in e.workers w,
  total-set overwriting e.workers w ready returned,
  total-append overwritten e.finished ((file, uploaded overwrite) ∷ []),
)
react-IsGuarded (conflicts w) (sending file overwrite) e v q =
    ground
      (arith, worker_in e.workers w, total-set overwriting e.workers w (deciding file) returned)
react-IsGuarded (fails w) (sending file overwrite) e v q =
    ground (arith, worker_in e.workers w, total-set overwriting e.workers w threw returned)
react-IsGuarded (decides w choice) (deciding file) e v q = ground (
  arith,
  worker_in e.workers w,
  total-set overwriting e.workers w ready returned,
  total-append overwritten e.finished ((file, skipped) ∷ []),
)
react-IsGuarded _ _ e v q = v

step-IsGuarded : (event : Event) (e : Engine) → IsGuarded e → IsGuarded (step event e)
unfolding step
step-IsGuarded cancels e v = v
step-IsGuarded event e v = react-IsGuarded event _ e v refl

run-IsGuarded : (events : List Event) (e : Engine) → IsGuarded e → IsGuarded (run events e)
unfolding run
run-IsGuarded [] e v = v
run-IsGuarded (event ∷ events) e v = run-IsGuarded events (step event e) (step-IsGuarded event e v)

overwriting-replicate : (n : ℕ) → total overwriting (replicate n) ≡ 0
overwriting-replicate zero = refl
overwriting-replicate (suc n) = omega (arith, overwriting-replicate n)

begin-IsGuarded : (files : ℕ) → IsGuarded (begin false files)
unfolding begin
begin-IsGuarded files = inr (omega (arith, overwriting-replicate (min 4 files)))

-- An answer that tells the batch to replace.
abbrev pub says_replace : Event → Bool
says_replace (decides w replace_all) = true
says_replace other = false

react_policy :
    (event : Event) (x : Worker) (e : Engine)
    → says_replace event ≡ false
    → is_replace e.policy ≡ false
    → is_replace (react event x e).policy ≡ false
react_policy (goes_on w) ready e h k = ground arith
react_policy (sent w) (sending file overwrite) e h k = k
react_policy (conflicts w) (sending file overwrite) e h k = k
react_policy (fails w) (sending file overwrite) e h k = k
react_policy (decides w replace_all) (deciding file) e h k = absurd (cc)
react_policy (decides w skip_all) (deciding file) e h k = ground arith
react_policy (decides w cancel) (deciding file) e h k = ground arith
react_policy _ _ e h k = k

run_policy :
    (events : List Event) (e : Engine)
    → All (λ event. says_replace event ≡ false) events
    → is_replace e.policy ≡ false
    → is_replace (run events e).policy ≡ false
unfolding run step
run_policy [] e h k = k
run_policy (cancels ∷ events) e h k = run_policy events _ h.1 k
run_policy (event ∷ events) e h k = run_policy events _ h.1 (react_policy event _ e h.0 k)

-- Where the settings do not say so and no answer to a conflict says replace, no file of the server is
-- overwritten, by a finished upload or by one in hand.
pub overwrites_nothing :
    (files : ℕ) (events : List Event)
    → All (λ event. says_replace event ≡ false) events
    → let e = run events (begin false files) in
      (total overwritten e.finished ≡ 0) × (total overwriting e.workers ≡ 0)
unfolding begin
overwrites_nothing files events h =
    let v = run-IsGuarded events (begin false files) (begin-IsGuarded files) in
    let p = run_policy events (begin false files) h refl in
    (ground (arith, v, p), ground (arith, v, p))
