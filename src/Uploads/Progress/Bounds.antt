-- ===== src/Uploads/Progress/Bounds.antt =====
-- The sums of the upload progress agree with its files, never pass their sizes and never fall.
use zen_fm.Base.{
  ℕ, ◌≤◌, ◌<◌, ◌≡◌, refl, Bool, true, false, List, [], ◌∷◌, arith, max, length, set, get_or, total,
  total-set, Below, Below-length, Below-get_or, Below-set, set-get_or, subst, get_or-set, if_both,
}
use zen_fm.Uploads.Progress.{
  Progress, begin, flush_progress, schedule_progress, update_progress, show_bytes, transfer_bytes,
  counted_bytes, size_of, bounded_of, zeros,
}

-- The kept sums are the sums over the files, and per file what was transferred is at most what is
-- shown, which is at most the file's size.
pub record IsConsistent (p : Progress) : Type 0 where
  pub uploaded : p.uploaded_bytes ≡ total (λ n. n) p.display_progress
  pub transferred : p.transferred_bytes ≡ total (λ n. n) p.transferred_progress
  pub display_fits : Below p.display_progress p.sizes
  pub transfer_fits : Below p.transferred_progress p.display_progress

zeros-Below : (ns : List ℕ) → Below (zeros ns) ns
zeros-Below [] = tt
zeros-Below (n ∷ ns) = (omega arith, zeros-Below ns)

zeros-total : (ns : List ℕ) → total (λ n. n) (zeros ns) ≡ 0
zeros-total [] = refl
zeros-total (n ∷ ns) = omega (arith, zeros-total ns)

zeros-Below_self : (ns : List ℕ) → Below (zeros ns) (zeros ns)
zeros-Below_self [] = tt
zeros-Below_self (n ∷ ns) = (omega arith, zeros-Below_self ns)

pub begin-IsConsistent : (sizes : List ℕ) → IsConsistent (begin sizes)
unfolding begin
begin-IsConsistent sizes = record {
  uploaded = omega (arith, zeros-total sizes);
  transferred = omega (arith, zeros-total sizes);
  display_fits = zeros-Below sizes;
  transfer_fits = zeros-Below_self sizes;
}

show_bytes-IsConsistent :
    (index sent : ℕ) (p : Progress)
    → index < length p.sizes
    → IsConsistent p
    → IsConsistent (show_bytes index sent p)
show_bytes-IsConsistent index sent p h v =
    let ds = p.display_progress in
    let old = get_or ds index 0 in
    let new = bounded_of p index sent in
    let size = size_of p index in
    let fits : new ≤ size = omega (arith, Below-get_or ds p.sizes index v.display_fits) in
    record {
      uploaded = omega (
        arith,
        v.uploaded,
        total-set (λ n. n) ds index new 0 (omega (arith, Below-length ds p.sizes v.display_fits)),
      );
      transferred = v.transferred;
      display_fits =
          subst (Below (set ds index new)) (set-get_or p.sizes index 0)
            (Below-set ds p.sizes index new size v.display_fits fits);
      transfer_fits =
          subst (λ ts. Below ts (set ds index new)) (set-get_or p.transferred_progress index 0)
            (Below-set p.transferred_progress ds index (get_or p.transferred_progress index 0) new
              v.transfer_fits
              (omega (arith, Below-get_or p.transferred_progress ds index v.transfer_fits)));
    }

transfer_bytes-IsConsistent :
    (index : ℕ) (p : Progress)
    → index < length p.sizes
    → IsConsistent p
    → IsConsistent (transfer_bytes index (get_or p.display_progress index 0) p)
transfer_bytes-IsConsistent index p h v =
    let ds = p.display_progress in
    let ts = p.transferred_progress in
    let old = get_or ts index 0 in
    let new = max old (get_or ds index 0) in
    let fits : new ≤ get_or ds index 0 = omega (arith, Below-get_or ts ds index v.transfer_fits) in
    record {
      uploaded = v.uploaded;
      transferred = omega (
        arith,
        v.transferred,
        total-set (λ n. n) ts index new 0
            (omega
              (arith, Below-length ds p.sizes v.display_fits, Below-length ts ds v.transfer_fits)),
      );
      display_fits = v.display_fits;
      transfer_fits =
          subst (Below (set ts index new)) (set-get_or ds index 0)
            (Below-set ts ds index new (get_or ds index 0) v.transfer_fits fits);
    }

-- What is shown plays no part in the sums.
schedule_progress-IsConsistent :
    (immediate : Bool) (p : Progress)
    → IsConsistent p
    → IsConsistent (schedule_progress immediate p)
unfolding schedule_progress flush_progress
schedule_progress-IsConsistent immediate p v = ground arith

counted_bytes-IsConsistent :
    (index sent : ℕ) (transferred : Bool) (p : Progress)
    → index < length p.sizes
    → IsConsistent p
    → IsConsistent (counted_bytes index sent transferred p)
counted_bytes-IsConsistent index sent false p h v = show_bytes-IsConsistent index sent p h v
counted_bytes-IsConsistent index sent true p h v =
    let q = show_bytes index sent p in
    let w = show_bytes-IsConsistent index sent p h v in
    let e : get_or q.display_progress index 0 ≡ bounded_of p index sent =
      get_or-set p.display_progress index (bounded_of p index sent) 0
        (omega (arith, Below-length p.display_progress p.sizes v.display_fits)) in
    subst (λ b. IsConsistent (transfer_bytes index b q)) e (transfer_bytes-IsConsistent index q h w)

pub update_progress-IsConsistent :
    (index sent : ℕ) (transferred immediate : Bool) (p : Progress)
    → index < length p.sizes
    → IsConsistent p
    → IsConsistent (update_progress index sent transferred immediate p)
unfolding update_progress
update_progress-IsConsistent index sent transferred immediate p h v =
    let w = counted_bytes-IsConsistent index sent transferred p h v in
    let named : IsConsistent (record (counted_bytes index sent transferred p) { current = index }) =
      record {
        uploaded = w.uploaded;
        transferred = w.transferred;
        display_fits = w.display_fits;
        transfer_fits = w.transfer_fits;
      } in
    if_both IsConsistent p.aborted v (schedule_progress-IsConsistent immediate _ named)
