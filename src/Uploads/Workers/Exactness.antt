-- ===== src/Uploads/Workers/Exactness.antt =====
-- Every file of a batch is taken once: in hand of one worker, finished, or left by a cancel.
use zen_fm.Base.{
  ℕ, zero, suc, ◌+◌, ◌≤◌, ◌<◌, ◌≡◌, refl, ◌≢◌, ◌⊎◌, inl, inr, Bool, true, false, List, [], ◌∷◌,
  if◌then◌else◌, min, ltb, ◌==◌, get_or, set, length, total, total-set, total-append, arith,
  Bool-cases, if_both, if_of_true, if_of_false, ltb→lt,
}
use zen_fm.Uploads.Workers.{
  ConflictPolicy, ask, replace, skip, ConflictChoice, replace_all, skip_all, cancel, Worker, ready,
  returned, threw, sending, deciding, Verdict, uploaded, skipped, Engine, begin, is_replace, Event,
  goes_on, sent, conflicts, fails, decides, cancels, put, take_next, finish, retry, decide, decided,
  react, worker_of, step, run, replicate,
}

abbrev pub one_if : Bool → ℕ
one_if b = if b then 1 else 0

-- Whether a worker has a file in hand, and how often a file is in hand or finished.
abbrev pub holds : ℕ → Worker → ℕ
holds k (sending file overwrite) = one_if (file == k)
holds k (deciding file) = one_if (file == k)
holds k other = 0

abbrev pub ends : ℕ → ℕ × Verdict → ℕ
ends k f = one_if (f.0 == k)

abbrev pub held : ℕ → Engine → ℕ
held k e = total (holds k) e.workers

abbrev pub times_finished : ℕ → Engine → ℕ
times_finished k e = total (ends k) e.finished

abbrev pub taken : ℕ → Engine → ℕ
taken k e = one_if (ltb k e.next_file)

pub record IsExact (e : Engine) : Type 0 where
  pub room : e.next_file ≤ e.total_files
  pub at_most : (k : ℕ) → times_finished k e + held k e ≤ taken k e
  pub exact : (k : ℕ) → (e.cancelled ≡ true) ⊎ (taken k e ≤ times_finished k e + held k e)

held-put :
    (k w : ℕ) (v : Worker) (e : Engine)
    → w < length e.workers
    → held k (put w v e) + holds k (get_or e.workers w returned) ≡ held k e + holds k v
held-put k w v e h = total-set (holds k) e.workers w v returned h

finish_times :
    (k w file : ℕ) (v : Verdict) (e : Engine)
    → times_finished k (finish w file v e) ≡ times_finished k e + one_if (file == k)
finish_times k w file v e = omega (arith, total-append (ends k) e.finished ((file, v) ∷ []))

pub worker_in : (ws : List Worker) (w : ℕ) → get_or ws w returned ≢ returned → w < length ws
worker_in [] w h = absurd (h refl)
worker_in (x ∷ ws) zero h = omega arith
worker_in (x ∷ ws) (suc w) h = omega (arith, worker_in ws w h)

-- A step that gives worker `w` another state and moves the file counts along keeps the batch exact.
keep :
    (w : ℕ) (x y : Worker) (e f : Engine)
    → IsExact e
    → w < length e.workers
    → get_or e.workers w returned ≡ x
    → f.workers ≡ set e.workers w y
    → f.next_file ≤ f.total_files
    → ((k : ℕ)
        → times_finished k f + holds k y + taken k e ≡ times_finished k e + holds k x + taken k f)
    → (f.cancelled ≡ false → e.cancelled ≡ false)
    → IsExact f
keep w x y e f v h q s r balance c = record {
  room = r;
  at_most = λ k. omega (arith, v.at_most k, balance k, moved k);
  exact = λ k. ground (arith, v.exact k, balance k, moved k, c);
}
  where
    moved : (k : ℕ) → held k f + holds k x ≡ held k e + holds k y
    moved k = rw (s, ← q) (total-set (holds k) e.workers w y returned h)

module _ (w : ℕ) (e : Engine) (v : IsExact e) where
  -- The worker's state changes, and with it no file.
  put_same :
      (x y : Worker)
      → get_or e.workers w returned ≡ x
      → w < length e.workers
      → ((k : ℕ) → holds k y ≡ holds k x)
      → IsExact (put w y e)
  put_same x y q h same =
      keep w x y e (put w y e) v h q refl v.room (λ k. omega (arith, same k)) (λ c. c)

  take_next-IsExact :
      get_or e.workers w returned ≡ ready → w < length e.workers → IsExact (take_next w e)
  take_next-IsExact q h = elim (Bool-cases (ltb e.next_file e.total_files)) [
    | inl more ↦
        let f =
          put w (sending e.next_file (is_replace e.policy))
            (record e { next_file = suc e.next_file }) in
        let taking : IsExact f =
          keep w ready (sending e.next_file (is_replace e.policy)) e f v h q refl
            (ltb→lt e.next_file e.total_files more) (λ k. ground arith) (λ c. c) in
        rw more (if_both IsExact e.cancelled (put_same ready returned q h (λ k. refl)) taking)
    | inr none_left ↦
        let back = put_same ready returned q h (λ k. refl) in
        rw none_left (if_both IsExact e.cancelled back back)
  ]

  finish-IsExact :
      (file : ℕ) (verdict : Verdict) (x : Worker) (policy : ConflictPolicy)
      → get_or e.workers w returned ≡ x
      → w < length e.workers
      → ((k : ℕ) → holds k x ≡ one_if (file == k))
      → IsExact (finish w file verdict (record e { policy = policy }))
  finish-IsExact file verdict x policy q h same =
      let f = finish w file verdict (record e { policy = policy }) in
      keep w x ready e f v h q refl v.room
        (λ k. omega (arith, same k, finish_times k w file verdict e)) (λ c. c)

  retry-IsExact :
      (file : ℕ)
      → get_or e.workers w returned ≡ deciding file
      → w < length e.workers
      → IsExact (retry w file e)
  retry-IsExact file q h =
      keep w (deciding file) (sending file true) e (retry w file e) v h q refl v.room
        (λ k. omega arith) (λ c. c)

  -- A worker that is stopped leaves its file.
  drop-IsExact :
      (y x : Worker) (c : Bool)
      → get_or e.workers w returned ≡ x
      → w < length e.workers
      → c ≡ true
      → ((k : ℕ) → holds k y ≡ 0)
      → IsExact (put w y (record e { cancelled = c }))
  drop-IsExact y x c q h stopped free = record {
    room = v.room;
    at_most = λ k. omega (arith, v.at_most k, free k, total-set (holds k) e.workers w y returned h);
    exact = λ k. inl stopped;
  }

  decide-IsExact :
      (file : ℕ) (choice : ConflictChoice) (policy : ConflictPolicy)
      → get_or e.workers w returned ≡ deciding file
      → w < length e.workers
      → IsExact (decide w file choice policy e)
  decide-IsExact file choice replace q h = retry-IsExact file q h
  decide-IsExact file choice skip q h =
      finish-IsExact file skipped (deciding file) e.policy q h (λ k. refl)
  decide-IsExact file replace_all ask q h = retry-IsExact file q h
  decide-IsExact file skip_all ask q h =
      finish-IsExact file skipped (deciding file) skip q h (λ k. refl)
  decide-IsExact file cancel ask q h = drop-IsExact ready (deciding file) true q h refl (λ k. refl)

  decided-IsExact :
      (file : ℕ) (choice : ConflictChoice)
      → get_or e.workers w returned ≡ deciding file
      → w < length e.workers
      → IsExact (decided w file choice e)
  decided-IsExact file choice q h = elim (Bool-cases e.cancelled) [
    | inl c ↦
        if_of_true IsExact e.cancelled _ _ c
          (drop-IsExact ready (deciding file) e.cancelled q h c (λ k. refl))
    | inr c ↦ if_of_false IsExact e.cancelled _ _ c (decide-IsExact file choice e.policy q h)
  ]

react-IsExact :
    (event : Event) (x : Worker) (e : Engine)
    → IsExact e
    → get_or e.workers (worker_of event) returned ≡ x
    → IsExact (react event x e)
react-IsExact (goes_on w) ready e v q = take_next-IsExact w e v q (worker_in e.workers w (λ r. cc))
react-IsExact (sent w) (sending file overwrite) e v q =
    finish-IsExact w e v file (uploaded overwrite) (sending file overwrite) e.policy q
      (worker_in e.workers w (λ r. cc)) (λ k. refl)
react-IsExact (conflicts w) (sending file overwrite) e v q =
    put_same w e v (sending file overwrite) (deciding file) q (worker_in e.workers w (λ r. cc))
      (λ k. refl)
react-IsExact (fails w) (sending file overwrite) e v q =
    drop-IsExact w e v threw (sending file overwrite) true q (worker_in e.workers w (λ r. cc)) refl
      (λ k. refl)
react-IsExact (decides w choice) (deciding file) e v q =
    decided-IsExact w e v file choice q (worker_in e.workers w (λ r. cc))
react-IsExact _ _ e v q = v

step-IsExact : (event : Event) (e : Engine) → IsExact e → IsExact (step event e)
unfolding step
step-IsExact cancels e v = record { room = v.room; at_most = v.at_most; exact = λ k. inl refl }
step-IsExact event e v = react-IsExact event _ e v refl

pub run-IsExact : (events : List Event) (e : Engine) → IsExact e → IsExact (run events e)
unfolding run
run-IsExact [] e v = v
run-IsExact (event ∷ events) e v = run-IsExact events (step event e) (step-IsExact event e v)

held-replicate : (k n : ℕ) → total (holds k) (replicate n) ≡ 0
held-replicate k zero = refl
held-replicate k (suc n) = omega (arith, held-replicate k n)

pub begin-IsExact : (auto : Bool) (files : ℕ) → IsExact (begin auto files)
unfolding begin
begin-IsExact auto files = record {
  room = omega arith;
  at_most = λ k. ground (arith, held-replicate k (min 4 files));
  exact = λ k. inr (ground arith);
}
