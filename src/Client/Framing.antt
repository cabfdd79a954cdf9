-- ===== src/Client/Framing.antt =====
-- The copy stream does not depend on how the answer is cut into chunks.
use zen_fm.Base.{
  ℕ, zero, suc, ◌≤◌, ◌<◌, ◌≡◌, refl, ap, ◌∙◌, sym, subst, false, List, [], ◌∷◌, ◌++◌, Option, none,
  some, inl, inr, arith, Text, length, split_on, split_on-cons, glue, append-nil, append_assoc,
  ◌==◌, if◌then◌else◌, Bool-cases,
}
use zen_fm.Client.CopyStream.{
  Attempt, ok, fail, ◌>>=◌, CopyProgressEvent, Progress, newline, break_line, consume, drain,
  read_chunks, ended, copy_stream,
}

unfoldable pub concat : List Text → Text
concat [] = []
concat (t ∷ ts) = t ++ concat ts

-- What `break_line` says of the lines of a text: there is one, or the first one and the others.
abbrev Broken : Text → Option (Text × Text) → Type 0
Broken s none = split_on newline s ≡ s ∷ []
Broken s (some (line, rest)) =
    (split_on newline s ≡ line ∷ split_on newline rest) × (length rest < length s)

abbrev longer : ℕ → Option (Text × Text) → Option (Text × Text)
longer c none = none
longer c (some (line, rest)) = some (c ∷ line, rest)

break_line-cons :
    (c : ℕ) (s : Text)
    → break_line (c ∷ s) ≡ (if c == newline then some ([], s) else longer c (break_line s))
unfolding break_line
break_line-cons c s = ground arith

split_on-cons_lem :
    (c : ℕ) (s : Text)
    → split_on newline (c ∷ s)
      ≡ (if c == newline then [] ∷ split_on newline s else glue c (split_on newline s))
unfolding split_on
split_on-cons_lem c s = refl

Broken-longer :
    (c : ℕ) (s : Text) (o : Option (Text × Text))
    → (c == newline) ≡ false
    → Broken s o
    → Broken (c ∷ s) (longer c o)
Broken-longer c s none e b = rw (split_on-cons_lem c s, e, b) refl
Broken-longer c s (some (line, rest)) e b = (rw (split_on-cons_lem c s, e, b.0) refl, omega arith)

break_line-Broken : (s : Text) → Broken s (break_line s)
unfolding break_line split_on
break_line-Broken [] = refl
break_line-Broken (c ∷ s) = elim (Bool-cases (c == newline)) [
  | inl e ↦ rw (break_line-cons c s, e) (rw (split_on-cons_lem c s, e) refl, omega arith)
  | inr e ↦ rw (break_line-cons c s, e) (Broken-longer c s _ e (break_line-Broken s))
]

-- A line that stands in a text stands in what follows from it.
abbrev Extended : Text → Option (Text × Text) → Option (Text × Text) → Type 0
Extended t none found = Unit {0}
Extended t (some (line, rest)) found = found ≡ some (line, rest ++ t)

Extended-longer :
    (c : ℕ) (t : Text) (o found : Option (Text × Text))
    → Extended t o found
    → Extended t (longer c o) (longer c found)
Extended-longer c t none found h = tt
Extended-longer c t (some (line, rest)) found h = rw h refl

break_line-append : (s t : Text) → Extended t (break_line s) (break_line (s ++ t))
unfolding break_line
break_line-append [] t = tt
break_line-append (c ∷ s) t = elim (Bool-cases (c == newline)) [
  | inl e ↦ rw (break_line-cons c s, break_line-cons c (s ++ t), e) refl
  | inr e ↦
      rw (break_line-cons c s, break_line-cons c (s ++ t), e)
        (Extended-longer c t (break_line s) _ (break_line-append s t))
]

bind_ext {ℓ κ} :
    {A : Type ℓ} {B : Type κ} (m : Attempt A) {f g : A → Attempt B}
    → ((a : A) → f a ≡ g a)
    → (m >>= f) ≡ (m >>= g)
bind_ext (ok a) h = h a
bind_ext (fail e p) h = refl

bind_assoc {ℓ κ μ} :
    {A : Type ℓ} {B : Type κ} {C : Type μ} (m : Attempt A) (f : A → Attempt B) (g : B → Attempt C)
    → ((m >>= f) >>= g) ≡ (m >>= λ a. f a >>= g)
bind_assoc (ok a) f g = refl
bind_assoc (fail e p) f g = refl

bind_ok {ℓ} : {A : Type ℓ} (m : Attempt A) → (m >>= ok) ≡ m
bind_ok (ok a) = refl
bind_ok (fail e p) = refl

abbrev Leaves : Attempt (Text × Progress) → Type 0
Leaves (ok r) = split_on newline r.0 ≡ r.0 ∷ []
Leaves (fail e p) = Unit {0}

Leaves-bind {ℓ} :
    {A : Type ℓ} (m : Attempt A) (f : A → Attempt (Text × Progress))
    → ((a : A) → Leaves (f a))
    → Leaves (m >>= f)
Leaves-bind (ok a) f h = h a
Leaves-bind (fail e p) f h = tt

bind_ext_Leaves {ℓ} :
    {B : Type ℓ} (m : Attempt (Text × Progress)) {f g : Text × Progress → Attempt B}
    → Leaves m
    → ((r : Text × Progress) → split_on newline r.0 ≡ r.0 ∷ [] → f r ≡ g r)
    → (m >>= f) ≡ (m >>= g)
bind_ext_Leaves (ok r) l h = h r l
bind_ext_Leaves (fail e p) l h = refl

module _ (parse : Text → Option CopyProgressEvent) where
  -- All lines but the last are consumed; the last one is left in the buffer.
  run : List Text → Progress → Attempt (Text × Progress)
  run [] p = ok ([], p)
  run (w ∷ []) p = ok (w, p)
  run (w ∷ v ∷ ws) p = consume parse w p >>= run (v ∷ ws)

  -- Every line is consumed, the last one too.
  unfoldable pub consume_lines : List Text → Progress → Attempt Progress
  consume_lines [] p = ok p
  consume_lines (w ∷ ws) p = consume parse w p >>= consume_lines ws

  run-cons :
      (line rest : Text) (p : Progress)
      → run (line ∷ split_on newline rest) p
        ≡ (consume parse line p >>= run (split_on newline rest))
  unfolding run
  run-cons line rest p = let (w, ws, e) = split_on-cons newline rest in rw e refl

  drain-run :
      (fuel : ℕ) (s : Text) (p : Progress)
      → length s ≤ fuel
      → drain parse fuel s p ≡ run (split_on newline s) p
  unfolding drain run split_on
  drain-run zero [] p h = refl
  drain-run zero (c ∷ s) p h = absurd (omega arith)
  drain-run (suc fuel) s p h = go (drain-run fuel) (break_line s) (break_line-Broken s)
    where
      go :
          ((r : Text) (q : Progress)
            → length r ≤ fuel
            → drain parse fuel r q ≡ run (split_on newline r) q)
          → (o : Option (Text × Text)) → Broken s o
          → (elim o as (λ x. Attempt (Text × Progress)) [
            | none ↦ ok (s, p)
            | some (line, rest) ↦ consume parse line p >>= λ p'. drain parse fuel rest p'
          ])
            ≡ run (split_on newline s) p
      go ih none b = rw (b, run) refl
      go ih (some (line, rest)) b = rw b.0 (
          bind_ext (consume parse line p) (λ q. ih rest q (omega (arith, b.1)))
          ∙ sym (run-cons line rest p))

  -- Going on with more text is going on with what was left of the text before.
  run-append :
      (fuel : ℕ) (s t : Text) (p : Progress)
      → length s ≤ fuel
      → run (split_on newline (s ++ t)) p
        ≡ (run (split_on newline s) p >>= λ r. run (split_on newline (r.0 ++ t)) r.1)
  unfolding run split_on
  run-append zero [] t p h = refl
  run-append zero (c ∷ s) t p h = absurd (omega arith)
  run-append (suc fuel) s t p h =
      go (λ r q. run-append fuel r t q) (break_line s) (break_line-Broken s) (break_line-append s t)
    where
      next : Text × Progress → Attempt (Text × Progress)
      next r = run (split_on newline (r.0 ++ t)) r.1

      go :
          ((r : Text) (q : Progress)
            → length r ≤ fuel
            → run (split_on newline (r ++ t)) q ≡ (run (split_on newline r) q >>= next))
          → (o : Option (Text × Text)) → Broken s o
          → Extended t o (break_line (s ++ t))
          → run (split_on newline (s ++ t)) p ≡ (run (split_on newline s) p >>= next)
      go ih none b x = rw (b, run) refl
      go ih (some (line, rest)) b x =
          let c : Broken (s ++ t) (some (line, rest ++ t)) =
            subst (Broken (s ++ t)) x (break_line-Broken (s ++ t)) in
          rw (c.0, b.0)
            (run-cons line (rest ++ t) p
              ∙ bind_ext (consume parse line p) (λ q. ih rest q (omega (arith, b.1)))
              ∙ sym (bind_assoc (consume parse line p) (run (split_on newline rest)) next)
              ∙ ap (λ m. m >>= next) (sym (run-cons line rest p)))

  -- What is left in the buffer holds no newline: it is one line.
  run-IsLine :
      (fuel : ℕ) (s : Text) (p : Progress) → length s ≤ fuel → Leaves (run (split_on newline s) p)
  unfolding run split_on
  run-IsLine zero [] p h = refl
  run-IsLine zero (c ∷ s) p h = absurd (omega arith)
  run-IsLine (suc fuel) s p h = go (run-IsLine fuel) (break_line s) (break_line-Broken s)
    where
      go :
          ((r : Text) (q : Progress) → length r ≤ fuel → Leaves (run (split_on newline r) q))
          → (o : Option (Text × Text)) → Broken s o
          → Leaves (run (split_on newline s) p)
      go ih none b = rw (b, run) b
      go ih (some (line, rest)) b =
          rw (b.0, run-cons line rest p)
            (Leaves-bind (consume parse line p) _ (λ q. ih rest q (omega (arith, b.1))))

  read_chunks-run :
      (chunks : List Text) (s : Text) (p : Progress)
      → split_on newline s ≡ s ∷ []
      → read_chunks parse chunks s p ≡ run (split_on newline (s ++ concat chunks)) p
  unfolding read_chunks concat run
  read_chunks-run [] s p h = rw (append-nil s, h, run) refl
  read_chunks-run (chunk ∷ chunks) s p h =
      let b = s ++ chunk in
      rw
        (
          drain-run (length b) b p (omega arith),
          ← append_assoc s chunk (concat chunks),
          run-append (length b) b (concat chunks) p (omega arith),
        )
        (bind_ext_Leaves (run (split_on newline b) p) (run-IsLine (length b) b p (omega arith))
          (λ r l. read_chunks-run chunks r.0 r.1 l))

  run-consume_lines :
      (w : Text) (ws : List Text) (p : Progress)
      → (run (w ∷ ws) p >>= λ r. consume parse r.0 r.1) ≡ consume_lines (w ∷ ws) p
  unfolding run consume_lines
  run-consume_lines w [] p = sym (bind_ok (consume parse w p))
  run-consume_lines w (v ∷ ws) p =
      bind_assoc (consume parse w p) (run (v ∷ ws)) (λ r. consume parse r.0 r.1)
      ∙ bind_ext (consume parse w p) (run-consume_lines v ws)

  -- However the answer is cut into chunks, the events consumed are the lines of the whole answer, in
  -- order and each once, with the reports, the errors and the final check that these lines give.
  pub copy_stream-lines :
      (chunks : List Text)
      → copy_stream parse chunks ≡ (
          consume_lines (split_on newline (concat chunks)) (record { reported = []; done = false })
          >>= ended)
  unfolding copy_stream split_on
  copy_stream-lines chunks =
      let p : Progress = record { reported = []; done = false } in
      let (w, ws, e) = split_on-cons newline (concat chunks) in
      rw (read_chunks-run chunks [] p refl, e)
        (sym (bind_assoc (run (w ∷ ws) p) (λ r. consume parse r.0 r.1) (ended))
          ∙ ap (λ m. m >>= ended) (run-consume_lines w ws p))
