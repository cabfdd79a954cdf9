-- ===== src/Browser/Sorting/Order.antt =====
-- The comparator of the entries is an order, when that of the names is one and
-- the entries sorted by their date have one.
use zen_fm.Base.{
  ℕ, ◌≡◌, refl, sym, ap, ◌∙◌, Bool, true, false, Option, none, some, is_some, Text, arith,
}
use zen_fm.Entries.{FileEntry, is_directory}
use zen_fm.Browser.Sorting.{
  Sign, negative, null, positive, negate, difference, date_difference, fits, SortField,
  SortDirection, asc, desc, directed, field_compare, folder_compare, placed, entry_compare,
}

-- Turning the arguments round turns the sign round, and what is not behind another, known one is not
-- behind what the other is not behind.
pub record IsOrder {ℓ} (A : Type ℓ) (Known : A → Type 0) (compare : A → A → Sign) : Type ℓ where
  pub turn : (a b : A) → compare b a ≡ negate (compare a b)
  pub chain :
      (a b c : A)
      → Known b
      → fits (compare a b) ≡ true
      → fits (compare b c) ≡ true
      → fits (compare a c) ≡ true

difference-turn : (a b : ℕ) → difference b a ≡ negate (difference a b)
difference-turn a b = ground arith

difference-chain :
    (a b c : ℕ)
    → fits (difference a b) ≡ true
    → fits (difference b c) ≡ true
    → fits (difference a c) ≡ true
difference-chain a b c h k = ground arith

negate-negate : (s : Sign) → negate (negate s) ≡ s
negate-negate negative = refl
negate-negate null = refl
negate-negate positive = refl

module _ {ℓ κ} {A : Type ℓ} {B : Type κ} where
  pub on-IsOrder :
      (f : B → A) (Known : A → Type 0) (compare : A → A → Sign)
      → IsOrder A Known compare
      → IsOrder B (λ x. Known (f x)) (λ x y. compare (f x) (f y))
  on-IsOrder f Known compare o = record {
    turn = λ a b. o.turn (f a) (f b);
    chain = λ a b c v h k. o.chain (f a) (f b) (f c) v h k;
  }

module _ {ℓ} {A : Type ℓ} where
  negate-IsOrder :
      (Known : A → Type 0) (compare : A → A → Sign)
      → IsOrder A Known compare
      → IsOrder A Known (λ x y. negate (compare x y))
  negate-IsOrder Known compare o = record {
    turn = λ a b. ap negate (o.turn a b);
    chain = λ a b c v h k.
        ap fits (sym (o.turn a c))
        ∙ o.chain c b a v (ap fits (o.turn b c) ∙ k) (ap fits (o.turn a b) ∙ h);
  }

  directed-IsOrder :
      (direction : SortDirection) (Known : A → Type 0) (compare : A → A → Sign)
      → IsOrder A Known compare
      → IsOrder A Known (λ x y. directed direction (compare x y))
  directed-IsOrder asc Known compare o = o
  directed-IsOrder desc Known compare o = negate-IsOrder Known compare o

placed-turn :
    (b c : Bool) (s t u v : Sign)
    → u ≡ negate s
    → v ≡ negate t
    → placed c b u v ≡ negate (placed b c s t)
placed-turn true true s t u v e f = e
placed-turn true false s t u v e f = refl
placed-turn false true s t u v e f = refl
placed-turn false false s t u v e f = f

abbrev Chains : Sign → Sign → Sign → Type 0
Chains s t u = fits s ≡ true → fits t ≡ true → fits u ≡ true

placed-chain :
    (b c d : Bool) (s t u v w x : Sign)
    → Chains s t u
    → Chains v w x
    → Chains (placed b c s v) (placed c d t w) (placed b d u x)
placed-chain true true true s t u v w x f g = f
placed-chain true true false s t u v w x f g = λ h k. refl
placed-chain true false true s t u v w x f g = λ h k. absurd (cc)
placed-chain true false false s t u v w x f g = λ h k. refl
placed-chain false true true s t u v w x f g = λ h k. absurd (cc)
placed-chain false true false s t u v w x f g = λ h k. absurd (cc)
placed-chain false false true s t u v w x f g = λ h k. absurd (cc)
placed-chain false false false s t u v w x f g = g

module _ {ℓ} {A : Type ℓ} where
  placed-IsOrder :
      (Known : A → Type 0) (is_folder : A → Bool) (folders files : A → A → Sign)
      → IsOrder A Known folders
      → IsOrder A Known files
      → IsOrder A Known (λ x y. placed (is_folder x) (is_folder y) (folders x y) (files x y))
  placed-IsOrder Known is_folder folders files o p = record {
    turn = λ a b.
        placed-turn (is_folder a) (is_folder b) (folders a b) (files a b) (folders b a) (files b a)
          (o.turn a b) (p.turn a b);
    chain = λ a b c v h k.
        placed-chain (is_folder a) (is_folder b) (is_folder c) (folders a b) (folders b c)
          (folders a c) (files a b) (files b c) (files a c) (o.chain a b c v) (p.chain a b c v) h k;
  }

-- Nothing is asked of what is compared.
abbrev pub Any {ℓ} : {A : Type ℓ} → A → Type 0
Any a = Unit

pub difference-IsOrder : IsOrder ℕ Any difference
difference-IsOrder = record { turn = difference-turn; chain = λ a b c v. difference-chain a b c }

-- A text that is a date.
abbrev pub IsDate : Option ℕ → Type 0
IsDate date = is_some date ≡ true

date_difference-turn : (a b : Option ℕ) → date_difference b a ≡ negate (date_difference a b)
date_difference-turn none none = refl
date_difference-turn none (some b) = refl
date_difference-turn (some a) none = refl
date_difference-turn (some a) (some b) = difference-turn a b

date_difference-chain :
    (a b c : Option ℕ)
    → IsDate b
    → fits (date_difference a b) ≡ true
    → fits (date_difference b c) ≡ true
    → fits (date_difference a c) ≡ true
date_difference-chain a none c v h k = absurd (cc)
date_difference-chain none (some b) c v h k = refl
date_difference-chain (some a) (some b) none v h k = refl
date_difference-chain (some a) (some b) (some c) v h k = difference-chain a b c h k

date_difference-IsOrder : IsOrder (Option ℕ) IsDate date_difference
date_difference-IsOrder = record { turn = date_difference-turn; chain = date_difference-chain }

known-IsOrder {ℓ} :
    {A : Type ℓ} (Known : A → Type 0) (compare : A → A → Sign)
    → IsOrder A Any compare
    → IsOrder A Known compare
known-IsOrder Known compare o = record { turn = o.turn; chain = λ a b c v. o.chain a b c tt }

-- What an entry needs to be sorted: a date, where the entries are sorted by it.
abbrev pub IsDated : (value_of : Text → Option ℕ) → SortField → FileEntry → Type 0
IsDated value_of SortField.modified entry = IsDate (value_of entry.modified_at)
IsDated value_of sort entry = Unit

module _ (locale_compare : Text → Text → Sign) (value_of : Text → Option ℕ)
    (texts : IsOrder Text Any locale_compare) where
  names-IsOrder : IsOrder FileEntry Any (λ x y. locale_compare x.name y.name)
  names-IsOrder = on-IsOrder (λ e. e.name) Any locale_compare texts

  pub field_compare-IsOrder :
      (sort : SortField)
      → IsOrder FileEntry (IsDated value_of sort) (field_compare locale_compare value_of sort)
  field_compare-IsOrder SortField.name = names-IsOrder
  field_compare-IsOrder SortField.size = on-IsOrder (λ e. e.size) Any difference difference-IsOrder
  field_compare-IsOrder SortField.created = names-IsOrder
  field_compare-IsOrder SortField.modified =
      on-IsOrder (λ e. value_of e.modified_at) IsDate date_difference date_difference-IsOrder

  folder_compare-IsOrder :
      (sort : SortField) (direction : SortDirection)
      → IsOrder FileEntry
          (IsDated value_of sort)
          (folder_compare locale_compare value_of sort direction)
  folder_compare-IsOrder SortField.size direction = names-IsOrder
  folder_compare-IsOrder SortField.name direction =
      directed-IsOrder direction Any _ (field_compare-IsOrder SortField.name)
  folder_compare-IsOrder SortField.created direction =
      directed-IsOrder direction Any _ (field_compare-IsOrder SortField.created)
  folder_compare-IsOrder SortField.modified direction =
      directed-IsOrder direction (IsDated value_of SortField.modified) _
        (field_compare-IsOrder SortField.modified)

  pub entry_compare-IsOrder :
      (sort : SortField) (direction : SortDirection)
      → IsOrder FileEntry
          (IsDated value_of sort)
          (entry_compare locale_compare value_of sort direction)
  unfolding entry_compare
  entry_compare-IsOrder sort direction =
      placed-IsOrder (IsDated value_of sort) (λ e. is_directory e.kind)
        (folder_compare locale_compare value_of sort direction)
        (λ x y. directed direction (field_compare locale_compare value_of sort x y))
        (folder_compare-IsOrder sort direction)
        (directed-IsOrder direction (IsDated value_of sort)
          (field_compare locale_compare value_of sort) (field_compare-IsOrder sort))
