-- ===== src/Mock/Canonical.antt =====
-- `normalize_path` yields canonical paths, and leaves those as they are.
pub mod Parts
use zen_fm.Base.{
  ℕ, ◌≡◌, refl, ◌≢◌, ap, sym, ◌∙◌, ◌⊎◌, inl, inr, Bool, true, false, not, ◌&&◌, ◌||◌, List, [], ◌∷◌,
  ◌++◌, Option, none, some, ◌==◌, if◌then◌else◌, Text, codes, text_eq, text_eq_iff, contains,
  split_on, join_with, any, select, All, All-append, arith, Bool-cases, append_assoc, append-nil,
  glue, subst, if_both, if_of_true, if_of_false,
}
use zen_fm.Paths.{slash, root, or_else}
use zen_fm.Mock.FilePaths.{
  dot, dots, drop_last, resolve, resolve_part, ends_with_slash, from_parts, posix_normalize,
  drop_last_slash, normalize_path,
}
use zen_fm.Mock.Canonical.Parts.{
  is_name, IsName, IsCanonical, Lacks, split_on-Lacks_self, split_on-Lacks, split_on-join_with,
}

abbrev is_plain : Text → Bool
is_plain w = not (text_eq w [] || text_eq w dot)

abbrev has_dots : List Text → Bool
has_dots parts = any (λ part. text_eq part dots) parts

resolve-select :
    (done parts : List Text)
    → has_dots parts ≡ false
    → resolve done parts ≡ done ++ select is_plain parts
unfolding resolve
resolve-select done [] h = sym (append-nil done)
resolve-select done (p ∷ parts) h =
    let ih = resolve-select done parts (ground arith) in
    let ih' = resolve-select (done ++ p ∷ []) parts (ground arith) in
    ground (arith, ih, ih', append_assoc done (p ∷ []) (select is_plain parts))

select-IsName :
    (parts : List Text)
    → has_dots parts ≡ false
    → All (Lacks slash) parts
    → All (Lacks 0) parts
    → All IsName (select is_plain parts)
select-IsName [] h s n = tt
select-IsName (p ∷ parts) h s n =
    let ih = select-IsName parts (ground arith) s.1 n.1 in
    elim (Bool-cases (is_plain p)) [
      | inl e ↦ if_of_true (All IsName) (is_plain p) _ _ e (ground (arith, s.0, n.0), ih)
      | inr e ↦ if_of_false (All IsName) (is_plain p) _ _ e ih
    ]

select-names : (ps : List Text) → All IsName ps → select is_plain ps ≡ ps
select-names [] h = refl
select-names (p ∷ ps) h = ground (arith, h.0, select-names ps h.1)

names-has_dots : (ps : List Text) → All IsName ps → has_dots ps ≡ false
names-has_dots [] h = refl
names-has_dots (p ∷ ps) h = ground (arith, h.0, names-has_dots ps h.1)

drop_last_slash-append : (s : Text) → drop_last_slash (s ++ slash ∷ []) ≡ s
unfolding drop_last_slash
drop_last_slash-append [] = refl
drop_last_slash-append (c ∷ []) = refl
drop_last_slash-append (c ∷ d ∷ s) = ap (◌∷◌ c) (drop_last_slash-append (d ∷ s))

drop_last_slash_of_plain : (s : Text) → ends_with_slash s ≡ false → drop_last_slash s ≡ s
unfolding drop_last_slash ends_with_slash
drop_last_slash_of_plain [] h = refl
drop_last_slash_of_plain (c ∷ []) h = ground arith
drop_last_slash_of_plain (c ∷ d ∷ s) h = ap (◌∷◌ c) (drop_last_slash_of_plain (d ∷ s) h)

ends_with_slash-append :
    (w : Text) (c : ℕ) (r : Text) → ends_with_slash (w ++ c ∷ r) ≡ ends_with_slash (c ∷ r)
unfolding ends_with_slash
ends_with_slash-append [] c r = refl
ends_with_slash-append (d ∷ []) c r = refl
ends_with_slash-append (d ∷ e ∷ w) c r = ends_with_slash-append (e ∷ w) c r

ends_with_slash_of_Lacks : (w : Text) → Lacks slash w → ends_with_slash w ≡ false
unfolding ends_with_slash contains
ends_with_slash_of_Lacks [] h = refl
ends_with_slash_of_Lacks (c ∷ []) h = ground arith
ends_with_slash_of_Lacks (c ∷ d ∷ w) h = ends_with_slash_of_Lacks (d ∷ w) (ground arith)

join_with-cons :
    (p : Text) (ps : List Text)
    → All IsName (p ∷ ps)
    → (c : ℕ) × (r : Text) × (join_with slash (p ∷ ps) ≡ c ∷ r)
      × (ends_with_slash (slash ∷ c ∷ r) ≡ false)
unfolding join_with ends_with_slash text_eq
join_with-cons [] [] h = absurd (ground (arith, h.0))
join_with-cons (c ∷ p) [] h = (c, p, refl, ends_with_slash_of_Lacks (c ∷ p) (ground (arith, h.0)))
join_with-cons [] (q ∷ ps) h = absurd (ground (arith, h.0))
join_with-cons (c ∷ p) (q ∷ ps) h =
    let (d, r, e, plain) = join_with-cons q ps h.1 in
    (c, p ++ slash ∷ d ∷ r, rw e refl, ends_with_slash-append (c ∷ p) slash (d ∷ r) ∙ plain)

from_parts-drop :
    (trailing : Bool) (p : Text) (ps : List Text)
    → All IsName (p ∷ ps)
    → drop_last_slash (from_parts trailing (p ∷ ps)) ≡ slash ∷ join_with slash (p ∷ ps)
from_parts-drop true p ps h = drop_last_slash-append (slash ∷ join_with slash (p ∷ ps))
from_parts-drop false p ps h =
    let (c, r, e, plain) = join_with-cons p ps h in
    rw (append-nil (slash ∷ join_with slash (p ∷ ps)))
      (drop_last_slash_of_plain (slash ∷ join_with slash (p ∷ ps)) (rw e plain))

-- The path that the names of a text's parts make.
abbrev pub path_of : List Text → Text
path_of [] = root
path_of (p ∷ ps) = slash ∷ join_with slash (p ∷ ps)

from_parts-path_of :
    (trailing : Bool) (ps : List Text)
    → All IsName ps
    → or_else (drop_last_slash (from_parts trailing ps)) root ≡ path_of ps
unfolding drop_last_slash
from_parts-path_of trailing [] h = refl
from_parts-path_of trailing (p ∷ ps) h = rw (from_parts-drop trailing p ps h) refl

split_on-slash : (s : Text) → split_on slash (slash ∷ s) ≡ [] ∷ split_on slash s
unfolding split_on
split_on-slash s = refl

resolve-slash :
    (parts : List Text) → has_dots parts ≡ false → resolve [] ([] ∷ parts) ≡ select is_plain parts
unfolding resolve text_eq
resolve-slash parts d = resolve-select [] parts d

-- A path that is accepted becomes the path of its names.
normalize_path-names :
    (input : Text)
    → contains 0 input ≡ false
    → has_dots (split_on slash input) ≡ false
    → (or_else (drop_last_slash (posix_normalize (slash ∷ input))) root
        ≡ path_of (select is_plain (split_on slash input)))
      × All IsName (select is_plain (split_on slash input))
unfolding posix_normalize
normalize_path-names input n d =
    let parts = split_on slash input in
    let names =
      select-IsName parts d (split_on-Lacks_self slash input) (split_on-Lacks slash 0 input n) in
    let found : resolve [] (split_on slash (slash ∷ input)) ≡ select is_plain parts =
      rw (split_on-slash input) (resolve-slash parts d) in
    (rw found (from_parts-path_of (ends_with_slash (slash ∷ input)) _ names), names)

path_of-IsCanonical : (ps : List Text) → All IsName ps → IsCanonical (path_of ps)
path_of-IsCanonical [] h = inl refl
path_of-IsCanonical (p ∷ ps) h = inr (p, ps, h, refl)

resolved-IsCanonical : (value t : Text) → normalize_path value ≡ some t → IsCanonical t
unfolding normalize_path
resolved-IsCanonical value t h =
    let input = or_else value root in
    elim (Bool-cases (contains 0 input || has_dots (split_on slash input))) [
      | inl e ↦ absurd (ground (arith, e))
      | inr e ↦
          let (same, names) = normalize_path-names input (ground arith) (ground arith) in
          let reached : or_else (drop_last_slash (posix_normalize (slash ∷ input))) root ≡ t =
            ground (arith, e) in
          subst IsCanonical (sym same ∙ reached) (path_of-IsCanonical _ names)
    ]

Lacks-append : (c : ℕ) (w r : Text) → Lacks c w → Lacks c r → Lacks c (w ++ r)
unfolding contains
Lacks-append c [] r h k = k
Lacks-append c (d ∷ w) r h k = ground (arith, Lacks-append c w r)

join_with-Lacks : (ps : List Text) → All IsName ps → Lacks 0 (join_with slash ps)
unfolding join_with contains
join_with-Lacks [] h = refl
join_with-Lacks (p ∷ []) h = ground (arith, h.0)
join_with-Lacks (p ∷ q ∷ ps) h =
    Lacks-append 0 p (slash ∷ join_with slash (q ∷ ps)) (ground (arith, h.0))
      (ground (arith, join_with-Lacks (q ∷ ps) h.1))

names-has_dots_root : (ps : List Text) → All IsName ps → has_dots ([] ∷ ps) ≡ false
unfolding text_eq
names-has_dots_root ps h = names-has_dots ps h

select-names_root :
    (p : Text) (ps : List Text) → All IsName (p ∷ ps) → select is_plain ([] ∷ p ∷ ps) ≡ p ∷ ps
unfolding text_eq
select-names_root p ps h = select-names (p ∷ ps) h

contains-slash : (s : Text) → Lacks 0 s → contains 0 (slash ∷ s) ≡ false
unfolding contains
contains-slash s h = h

normalize_path-root : normalize_path root ≡ some root
unfolding normalize_path posix_normalize resolve drop_last_slash text_eq split_on contains
normalize_path-root = refl

normalize_path-path_of :
    (p : Text) (ps : List Text)
    → All IsName (p ∷ ps)
    → normalize_path (path_of (p ∷ ps)) ≡ some (path_of (p ∷ ps))
unfolding normalize_path
normalize_path-path_of p ps h =
    let t = path_of (p ∷ ps) in
    let parts : split_on slash t ≡ [] ∷ p ∷ ps =
      split_on-slash (join_with slash (p ∷ ps)) ∙ ap (◌∷◌ []) (split_on-join_with p ps h) in
    let clear : contains 0 t ≡ false = contains-slash _ (join_with-Lacks (p ∷ ps) h) in
    let plain : has_dots (split_on slash t) ≡ false = rw parts (names-has_dots_root (p ∷ ps) h) in
    let (same, names) = normalize_path-names t clear plain in
    let kept : select is_plain (split_on slash t) ≡ p ∷ ps = rw parts (select-names_root p ps h) in
    rw (clear, plain) (ap some (same ∙ ap path_of kept))

normalize_path-of_IsCanonical : (t : Text) → IsCanonical t → normalize_path t ≡ some t
normalize_path-of_IsCanonical t (inl e) = rw e normalize_path-root
normalize_path-of_IsCanonical t (inr (p, ps, h, e)) = rw e (normalize_path-path_of p ps h)

-- A path that is accepted becomes canonical: the root, or names joined by single slashes, none of them
-- empty, `.` or `..`, and none with a slash or a NUL inside. Normalising it again leaves it as it is.
pub normalize_path-IsCanonical :
    (value t : Text) → normalize_path value ≡ some t → IsCanonical t × (normalize_path t ≡ some t)
normalize_path-IsCanonical value t h =
    let c = resolved-IsCanonical value t h in (c, normalize_path-of_IsCanonical t c)
