-- ===== src/Uploads/Queue/Fifo.antt =====
-- The uploads of a page begin one after the other, in the order in which they were added.
use zen_fm.Base.{
  if◌then◌else◌, Bool, append-nil, apart, ℕ, zero, suc, ◌+◌, ◌<◌, ◌≡◌, refl, sym, ap, ◌∙◌, ◌≡⟨◌⟩◌,
  ◌∎, All, All-map, Text, ◌⊎◌, inl, inr, true, false, Bool-cases, List, [], ◌∷◌, ◌++◌, append_assoc,
  Option, none, some, select, not, ◌==◌, ==_refl, arith,
}
use zen_fm.Uploads.Batches.{UploadBatch, UploadFile}
use zen_fm.Uploads.Queue.{
  Item, Queue, Active, initial, add, next, end, cancel, leave, Event, adds, ends, continues,
  cancels, leaves, step, run, is_nothing, label, upload_names, Ending, end_active, start,
  start_next,
}

-- The numbers from the one behind `from` on.
abbrev pub numbers : (from count : ℕ) → List ℕ
numbers from zero = []
numbers from (suc count) = suc from ∷ numbers (suc from) count

abbrev pub ids : List Item → List ℕ
ids [] = []
ids (item ∷ items) = item.id ∷ ids items

abbrev pub Added : Type 0
Added = List (UploadBatch × Text)

abbrev pub contents : List Item → Added
contents [] = []
contents (item ∷ items) = (item.upload, item.destination) ∷ contents items

-- An upload of folders and files, unless there is neither.
abbrev pub one_of : (directories : List Text) → (files : List UploadFile) → (Text → Added)
one_of [] [] = λ destination. []
one_of directories files =
    λ destination. (record { directories = directories; files = files }, destination) ∷ []

-- The uploads that the events bring to the page until it is left, in their order.
abbrev pub brought : (left : Bool) → Event → Added
brought left (adds upload destination) =
    if left then [] else one_of upload.directories upload.files destination
brought left event = []

abbrev pub has_left : (left : Bool) → Event → Bool
has_left left leaves = true
has_left left event = left

abbrev pub added : (left : Bool) → List Event → Added
added left [] = []
added left (event ∷ events) = brought left event ++ added (has_left left event) events

-- What has begun, what was given up and what waits are together the uploads added, in their order, and
-- numbered from 1 on; until the page is left none is given up and it shows those that wait.
abbrev pub IsFifo : Added → Queue → Type 0
IsFifo uploads q =
    (given_up : List Item) × (contents (q.begun ++ given_up ++ q.chain) ≡ uploads)
    × (ids (q.begun ++ given_up ++ q.chain) ≡ numbers 0 q.last_id)
    × (q.stopped ≡ true ⊎ ((given_up ≡ []) × (q.queued ≡ q.chain)))

numbers-last :
    (from count : ℕ) → numbers from (suc count) ≡ numbers from count ++ suc (from + count) ∷ []
numbers-last from zero = ap (λ n. suc n ∷ []) (from ≡⟨ omega arith ⟩ from + 0 ∎)
numbers-last from (suc count) = ap (◌∷◌ (suc from)) (
    numbers-last (suc from) count
    ∙ ap (λ n. numbers (suc from) count ++ suc n ∷ [])
        (suc from + count ≡⟨ omega arith ⟩ from + suc count ∎))

numbers-above : (from count : ℕ) → All (λ n. from < n) (numbers from count)
numbers-above from zero = tt
numbers-above from (suc count) = (
  omega arith,
  All-map (λ n. suc from < n) (λ n. from < n) (numbers (suc from) count) (λ n h. omega arith)
      (numbers-above (suc from) count),
)

-- In the sequence of the numbers, those behind one are greater.
behind-above :
    (from count i : ℕ) (xs ys : List ℕ) → xs ++ i ∷ ys ≡ numbers from count → All (λ n. i < n) ys
behind-above from zero i [] ys e = absurd (cc)
behind-above from (suc count) i [] ys e =
    let p : i ≡ suc from = cc in
    let t : ys ≡ numbers (suc from) count = cc in rw (t, p) (numbers-above (suc from) count)
behind-above from zero i (x ∷ xs) ys e = absurd (cc)
behind-above from (suc count) i (x ∷ xs) ys e = behind-above (suc from) count i xs ys (cc)

ids-append : (xs ys : List Item) → ids (xs ++ ys) ≡ ids xs ++ ids ys
ids-append [] ys = refl
ids-append (x ∷ xs) ys = ap (◌∷◌ x.id) (ids-append xs ys)

select-others :
    (i : ℕ) (items : List Item)
    → All (λ n. i < n) (ids items)
    → select (λ other. not (other.id == i)) items ≡ items
select-others i [] h = refl
select-others i (item ∷ items) h =
    let e : (item.id == i) ≡ false = ground (arith, h.0) in
    rw e (ap (◌∷◌ item) (select-others i items h.1))

contents-append : (xs ys : List Item) → contents (xs ++ ys) ≡ contents xs ++ contents ys
contents-append [] ys = refl
contents-append (x ∷ xs) ys = ap (◌∷◌ (x.upload, x.destination)) (contents-append xs ys)

one_of-is_nothing :
    (upload : UploadBatch) (destination : Text)
    → one_of upload.directories upload.files destination
      ≡ (if is_nothing upload then [] else (upload, destination) ∷ [])
one_of-is_nothing upload destination = go upload.directories upload.files
  where
    go :
        (directories : List Text) (files : List UploadFile)
        → let u : UploadBatch = record { directories = directories; files = files } in
          one_of directories files destination
          ≡ (if is_nothing u then [] else (u, destination) ∷ [])
    go [] [] = refl
    go [] (f ∷ files) = ground arith
    go (d ∷ directories) files = ground arith

add_number :
    (n : ℕ) (numbered : List ℕ)
    → numbered ≡ numbers 0 n
    → numbered ++ suc n ∷ [] ≡ numbers 0 (suc n)
add_number n numbered o =
    ap (λ t. t ++ suc n ∷ []) o
    ∙ ap (λ m. numbers 0 n ++ suc m ∷ []) (n ≡⟨ omega arith ⟩ 0 + n ∎)
    ∙ sym (numbers-last 0 n)

append_last :
    (begun given_up waiting : List Item) (item : Item)
    → begun ++ given_up ++ (waiting ++ item ∷ []) ≡ (begun ++ given_up ++ waiting) ++ item ∷ []
append_last begun given_up waiting item = sym (append_assoc (begun ++ given_up) waiting (item ∷ []))

add-IsFifo :
    (upload : UploadBatch) (destination : Text) (uploads : Added) (q : Queue)
    → IsFifo uploads q
    → IsFifo (uploads ++ brought q.stopped (adds upload destination)) (add upload destination q)
unfolding add
add-IsFifo upload destination uploads q (g, c, o, s) =
    let item : Item = record {
      id = suc q.last_id;
      name = label (upload_names upload);
      upload = upload;
      destination = destination;
    } in
    elim (Bool-cases q.stopped) [
      | inl e ↦ rw (e, append-nil uploads) (g, c, o, inl refl)
      | inr e ↦ elim (Bool-cases (is_nothing upload)) [
        | inl n ↦
            rw (e, one_of-is_nothing upload destination, n, append-nil uploads) (g, c, o, rw e at s)
        | inr n ↦
            let last = append_last q.begun g q.chain item in
            rw (e, one_of-is_nothing upload destination, n)
              (
                g,
                ap contents last
                    ∙ contents-append (q.begun ++ g ++ q.chain) (item ∷ [])
                    ∙ ap (λ t. t ++ (upload, destination) ∷ []) c,
                ap ids last
                    ∙ ids-append (q.begun ++ g ++ q.chain) (item ∷ [])
                    ∙ add_number q.last_id (ids (q.begun ++ g ++ q.chain)) o,
                elim s [
                  | inl a ↦ absurd (apart (sym a ∙ e))
                  | inr (a, b) ↦ inr (a, ap (λ items. items ++ item ∷ []) b)
                ],
              )
      ]
    ]

give_up :
    (begun given_up waiting : List Item) (i : Item)
    → begun ++ (given_up ++ i ∷ []) ++ waiting ≡ begun ++ given_up ++ i ∷ waiting
give_up [] [] waiting i = refl
give_up [] (g ∷ given_up) waiting i = ap (◌∷◌ g) (give_up [] given_up waiting i)
give_up (b ∷ begun) given_up waiting i = ap (◌∷◌ b) (give_up begun given_up waiting i)

begin_one :
    (begun waiting : List Item) (i : Item)
    → begun ++ i ∷ [] ++ [] ++ waiting ≡ begun ++ [] ++ i ∷ waiting
begin_one [] waiting i = refl
begin_one (b ∷ begun) waiting i = ap (◌∷◌ b) (begin_one begun waiting i)

-- Those that wait behind the first one have other numbers.
waiting-others :
    (count : ℕ) (begun chain : List Item) (item : Item)
    → ids (begun ++ [] ++ item ∷ chain) ≡ numbers 0 count
    → select (λ other. not (other.id == item.id)) chain ≡ chain
waiting-others count begun chain item order = select-others item.id chain (
    behind-above 0 count item.id (ids (begun ++ [])) (ids chain)
      (sym (ids-append (begun ++ []) (item ∷ chain)) ∙ order))

start-IsFifo :
    (item : Item) (chain : List Item) (uploads : Added) (q : Queue)
    → q.chain ≡ item ∷ chain
    → IsFifo uploads q
    → IsFifo uploads (start item chain q)
start-IsFifo item chain uploads q w (g, c, o, s) = elim (Bool-cases q.stopped) [
  | inl e ↦
      let same : q.begun ++ (g ++ item ∷ []) ++ chain ≡ q.begun ++ g ++ q.chain =
        give_up q.begun g chain item ∙ ap (λ items. q.begun ++ g ++ items) (sym w) in
      rw e (g ++ item ∷ [], ap contents same ∙ c, ap ids same ∙ o, inl refl)
  | inr e ↦ elim s [
    | inl a ↦ absurd (apart (sym a ∙ e))
    | inr (a, b) ↦
        let whole : q.begun ++ [] ++ item ∷ chain ≡ q.begun ++ g ++ q.chain =
          ap (λ items. q.begun ++ [] ++ items) (sym w)
          ∙ ap (λ t. q.begun ++ t ++ q.chain) (sym a) in
        let same = begin_one q.begun chain item ∙ whole in
        let own : (item.id == item.id) ≡ true = ==_refl item.id in
        let others = waiting-others q.last_id q.begun chain item (ap ids whole ∙ o) in
        rw (e, b, w, own) ([], ap contents same ∙ c, ap ids same ∙ o, inr (refl, others))
  ]
]

start_next-IsFifo :
    (active : Option Active) (chain : List Item) (uploads : Added) (q : Queue)
    → q.chain ≡ chain
    → IsFifo uploads q
    → IsFifo uploads (start_next active chain q)
start_next-IsFifo (some active) chain uploads q c f = f
start_next-IsFifo none [] uploads q c f = f
start_next-IsFifo none (item ∷ chain) uploads q c f = start-IsFifo item chain uploads q c f

start-stopped :
    (item : Item) (chain : List Item) (q : Queue) → (start item chain q).stopped ≡ q.stopped
start-stopped item chain q = ground arith

start_next-stopped :
    (active : Option Active) (chain : List Item) (q : Queue)
    → (start_next active chain q).stopped ≡ q.stopped
start_next-stopped (some active) chain q = refl
start_next-stopped none [] q = refl
start_next-stopped none (item ∷ chain) q = start-stopped item chain q

end_active-IsFifo :
    (ending : Ending) (active : Option Active) (uploads : Added) (q : Queue)
    → IsFifo uploads q
    → IsFifo uploads (end_active ending active q)
end_active-IsFifo ending none uploads q f = f
end_active-IsFifo ending (some active) uploads q f = f

end_active-stopped :
    (ending : Ending) (active : Option Active) (q : Queue)
    → (end_active ending active q).stopped ≡ q.stopped
end_active-stopped ending none q = refl
end_active-stopped ending (some active) q = refl

-- An event brings no upload, or it adds one.
step-IsFifo :
    (event : Event) (uploads : Added) (q : Queue)
    → IsFifo uploads q
    → IsFifo (uploads ++ brought q.stopped event) (step event q)
unfolding step end cancel leave next
step-IsFifo (adds upload destination) uploads q f = add-IsFifo upload destination uploads q f
step-IsFifo (ends ending) uploads q f =
    rw (append-nil uploads) (end_active-IsFifo ending q.active uploads q f)
step-IsFifo continues uploads q f =
    rw (append-nil uploads) (start_next-IsFifo q.active q.chain uploads q refl f)
step-IsFifo cancels uploads q f = rw (append-nil uploads) f
step-IsFifo leaves uploads q (g, c, o, s) = rw (append-nil uploads) (g, c, o, inl refl)

step-stopped : (event : Event) (q : Queue) → (step event q).stopped ≡ has_left q.stopped event
unfolding step add end cancel leave next
step-stopped (adds upload destination) q = ground arith
step-stopped (ends ending) q = end_active-stopped ending q.active q
step-stopped continues q = start_next-stopped q.active q.chain q
step-stopped cancels q = refl
step-stopped leaves q = refl

run-IsFifo :
    (events : List Event) (uploads : Added) (q : Queue)
    → IsFifo uploads q
    → IsFifo (uploads ++ added q.stopped events) (run events q)
unfolding run
run-IsFifo [] uploads q f = rw (append-nil uploads) f
run-IsFifo (event ∷ events) uploads q f =
    let first = brought q.stopped event in
    let ends =
      run-IsFifo events (uploads ++ first) (step event q) (step-IsFifo event uploads q f) in
    rw
      (
        sym (append_assoc uploads first (added (has_left q.stopped event) events)),
        sym (step-stopped event q),
      )
      ends

-- Whatever happens on a page, in whatever order: the uploads that have begun, those given up once the
-- page was left, and those that wait are together the uploads that the events before the leaving bring
-- and that have a folder or a file, each with its destination, once and in their order, numbered from 1
-- on; and until the page is left none is given up and the page shows the ones that wait.
pub run-initial-IsFifo : (events : List Event) → IsFifo (added false events) (run events initial)
run-initial-IsFifo events = run-IsFifo events [] initial ([], refl, refl, inr (refl, refl))
