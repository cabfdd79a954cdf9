-- ===== src/Mock/Files/Maps.antt =====
-- The laws of the file map.
use zen_fm.Base.{◌≡◌, refl, [], ◌∷◌, none, some, if◌then◌else◌, Text, text_eq, text_eq_iff, arith}
use zen_fm.Mock.Files.{MockFile, FileMap, get, set, delete}

-- The keys of a map differ.
abbrev pub IsMap : FileMap → Type 0
IsMap [] = Unit {0}
IsMap ((p, f) ∷ fs) = (get p fs ≡ none) × IsMap fs

pub get-set :
    (p q : Text) (v : MockFile) (fs : FileMap)
    → get q (set p v fs) ≡ (if text_eq p q then some v else get q fs)
unfolding get set
get-set p q v [] = refl
get-set p q v ((r, f) ∷ fs) =
    ground (arith, get-set p q v fs, text_eq_iff r p, text_eq_iff r q, text_eq_iff p q)

get_eq : (p q : Text) (fs : FileMap) → p ≡ q → get p fs ≡ get q fs
get_eq p q fs e = rw e refl

pub get-delete :
    (p q : Text) (fs : FileMap)
    → IsMap fs
    → get q (delete p fs) ≡ (if text_eq p q then none else get q fs)
unfolding get delete
get-delete p q [] m = ground arith
get-delete p q ((r, f) ∷ fs) m =
    ground (
      arith,
      get-delete p q fs m.1,
      text_eq_iff r p,
      text_eq_iff r q,
      text_eq_iff p q,
      get_eq r q fs,
    )

pub set-IsMap : (p : Text) (v : MockFile) (fs : FileMap) → IsMap fs → IsMap (set p v fs)
unfolding set get
set-IsMap p v [] m = (refl, tt)
set-IsMap p v ((r, f) ∷ fs) m =
    ground (arith, set-IsMap p v fs m.1, get-set p r v fs, text_eq_iff r p, text_eq_iff p r)

pub delete-IsMap : (p : Text) (fs : FileMap) → IsMap fs → IsMap (delete p fs)
unfolding delete
delete-IsMap p [] m = tt
delete-IsMap p ((r, f) ∷ fs) m = ground (arith, delete-IsMap p fs m.1, get-delete p r fs m.1)
