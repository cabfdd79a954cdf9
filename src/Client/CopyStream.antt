-- ===== src/Client/CopyStream.antt =====
-- `copyWithProgress` of frontend/src/api/client.ts: the loop over the answer's newline-delimited
-- events. `JSON.parse` is a parameter; a chunk is what the browser's decoder makes of one read.
use zen_fm.Base.{
  ℕ, zero, suc, Bool, true, false, ◌&&◌, ◌||◌, List, [], ◌∷◌, ◌++◌, Option, none, some, leb, ◌==◌,
  if◌then◌else◌, Text, codes, length,
}
use zen_fm.Client.{Failure, api_error, thrown, ProblemDetails, problem_of}

-- `copied_bytes` is `none` where it is no finite number, or negative.
pub record CopyProgressEvent : Type 0 where
  pub copied_bytes : Option ℕ
  pub done : Bool
  pub error : Option ProblemDetails

-- The numbers handed to `onProgress` so far, and whether the final event has come.
pub record Progress : Type 0 where
  pub reported : List ℕ
  pub done : Bool

-- A step that may throw; what had been reported by then stays reported.
pub data Attempt {ℓ} (A : Type ℓ) : Type ℓ where
  ok : A → Attempt A
  fail : Failure → Progress → Attempt A

infixl 5 ◌>>=◌
abbrev pub ◌>>=◌ {ℓ κ} : {A : Type ℓ} {B : Type κ} → Attempt A → (A → Attempt B) → Attempt B
ok a >>= f = f a
fail e p >>= f = fail e p

abbrev pub newline : ℕ
newline = 10

-- White space and line ends, as `trim` takes them away.
unfoldable pub is_space : ℕ → Bool
is_space c =
    (leb 9 c && leb c 13)
    || c == 32
    || c == 0xa0
    || c == 0x1680
    || (leb 0x2000 c && leb c 0x200a)
    || c == 0x2028
    || c == 0x2029
    || c == 0x202f
    || c == 0x205f
    || c == 0x3000
    || c == 0xfeff

unfoldable pub is_blank : Text → Bool
unfolding is_space
is_blank [] = true
is_blank (c ∷ s) = is_space c && is_blank s

abbrev pub status_or : ℕ → Option ℕ → ℕ
status_or default none = default
status_or default (some s) = s

abbrev report : Option ℕ → Progress → Progress
report none p = p
report (some n) p = record p { reported = p.reported ++ n ∷ [] }

-- `buffered.indexOf('\n')`, with the two slices on its sides.
unfoldable pub break_line : Text → Option (Text × Text)
break_line [] = none
break_line (c ∷ s) =
    if c == newline
    then some ([], s)
    else elim (break_line s) [ none ↦ none | some (line, rest) ↦ some (c ∷ line, rest) ]

-- The check behind the loop.
abbrev pub ended : Progress → Attempt Progress
ended p =
    if p.done
    then ok p
    else fail (api_error 500 (some (problem_of (codes "Copy progress ended unexpectedly") 500))) p

module _ (parse : Text → Option CopyProgressEvent) where
  unfoldable pub consume : Text → Progress → Attempt Progress
  unfolding is_blank
  consume line p = if is_blank line then ok p else elim (parse line) [
    | none ↦ fail (thrown (codes "SyntaxError")) p
    | some event ↦ elim event.error [
      | some problem ↦ fail (api_error (status_or 500 problem.status) (some problem)) p
      | none ↦
          let p' = report event.copied_bytes p in ok (record p' { done = p'.done || event.done })
    ]
  ]

  -- The inner loop. Each round shortens the buffer, so its length bounds the rounds.
  unfoldable pub drain : ℕ → Text → Progress → Attempt (Text × Progress)
  drain zero buffered p = ok (buffered, p)
  drain (suc fuel) buffered p = elim (break_line buffered) [
    | none ↦ ok (buffered, p)
    | some (line, rest) ↦ consume line p >>= λ p'. drain fuel rest p'
  ]

  -- The outer loop, over the chunks up to the one that ends the stream.
  unfoldable pub read_chunks : List Text → Text → Progress → Attempt (Text × Progress)
  unfolding drain
  read_chunks [] buffered p = ok (buffered, p)
  read_chunks (chunk ∷ chunks) buffered p =
      drain (length (buffered ++ chunk)) (buffered ++ chunk) p >>= λ r. read_chunks chunks r.0 r.1

  -- The whole of a readable answer: the chunks, the rest of the buffer, and the final check.
  unfoldable pub copy_stream : List Text → Attempt Progress
  unfolding read_chunks consume
  copy_stream chunks = read_chunks chunks [] (record { reported = []; done = false }) >>= λ r.
      consume r.0 r.1 >>= ended
