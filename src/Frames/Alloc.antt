-- ===== src/Frames/Alloc.antt =====
-- `alloc_contiguous` and `free` (src/frames.rs): what callers are promised.
use veil_os.Base.{
  ℕ, zero, suc, ◌+◌, ◌*◌, ◌/◌, ◌^◌, ◌≤◌, ◌<◌, ◌≡◌, refl, ap, ◌∙◌, ◌≢◌, inl, inr, Bool, true, false,
  none, some, arith, ltb, if◌then◌else◌, Bool-cases, Option-cases,
}
use veil_os.Base.Word.{add64, add64_lem, sub64, sub64_lem}
use veil_os.Frames.{
  Frames, is_used, mark, mark_range, scan, alloc_contiguous, free, frame_size, max_frames,
}
use veil_os.Frames.Bitmap.{
  AllUsed, within, unused, is_used-mark_range, unused-mark_range-true, unused-mark_range-false,
  unused-le, unused-same,
}
use veil_os.Frames.Scan.{Found, scan-Found, scan_complete}

-- The counter counts the free frames, the machine has at most 4 GiB of frames, and their addresses
-- are words.
pub record IsConsistent (s : Frames) : Type 0 where
  pub counted : s.free ≡ unused s s.nframes
  pub small : s.nframes ≤ max_frames
  pub cursor : s.cursor ≤ s.nframes
  pub addressed : s.ram_base + s.nframes * frame_size < 2 ^ 64

-- The fields that marking leaves alone.
pub mark_range-same :
    (s : Frames) (first count : ℕ) (b : Bool)
    → ((mark_range s first count b).nframes ≡ s.nframes)
      × ((mark_range s first count b).ram_base ≡ s.ram_base)
      × ((mark_range s first count b).cursor ≡ s.cursor)
      × ((mark_range s first count b).free ≡ s.free)
unfolding mark_range mark
mark_range-same s first zero b = (refl, refl, refl, refl)
mark_range-same s first (suc count) b = mark_range-same (mark s first b) (first + 1) count b

-- `count` frames from `first` on, at the address `pa`, were free and are used now; no other frame
-- has changed.
pub record Allocated (s : Frames) (count first pa : ℕ) (t : Frames) : Type 0 where
  pub consistent : IsConsistent t
  pub address : pa ≡ s.ram_base + first * frame_size
  pub inside : first + count ≤ s.nframes
  pub unused_before : AllUsed s first count false
  pub marked : (f : ℕ) → is_used t f ≡ (if within first count f then true else is_used s f)
  pub fewer : t.free + count ≡ s.free
  pub base : t.ram_base ≡ s.ram_base
  pub frames : t.nframes ≡ s.nframes

-- A free range of the bitmap, and the state after it has been taken.
abbrev pub taken : Frames → ℕ → ℕ → ℕ → Frames
taken s first count stop = record (mark_range s first count true) {
  free = sub64 s.free count;
  cursor = stop;
}

scan-some :
    (s : Frames) (count first stop : ℕ)
    → scan s count (2 * s.nframes) s.cursor 0 ≡ some (first, stop)
    → alloc_contiguous s count
      ≡ (some (add64 s.ram_base (first * frame_size)), taken s first count stop)
unfolding alloc_contiguous
scan-some s count first stop e = rw (e, alloc_contiguous)

scan-none :
    (s : Frames) (count : ℕ)
    → scan s count (2 * s.nframes) s.cursor 0 ≡ none
    → alloc_contiguous s count ≡ (none, s)
unfolding alloc_contiguous
scan-none s count e = rw (e, alloc_contiguous)

no_scan :
    (s : Frames) (count n frame run first stop : ℕ)
    → n ≡ 0
    → scan s count n frame run ≢ some (first, stop)
unfolding scan
no_scan s count zero frame run first stop z e = cc
no_scan s count (suc n) frame run first stop z e = cc

Found-cursor :
    (s : Frames) (count first stop : ℕ)
    → scan s count (2 * s.nframes) s.cursor 0 ≡ some (first, stop)
    → Found s count first stop
Found-cursor s count first stop e = elim (Bool-cases (ltb 0 s.nframes)) [
  | inl pos ↦
      scan-Found s count (2 * s.nframes) s.cursor 0 (ground arith)
        (omega arith, λ f p q. absurd (omega arith)) e
  | inr none_at_all ↦
      absurd (no_scan s count (2 * s.nframes) s.cursor 0 first stop (ground arith) e)
]

-- The bitmap alone says which frames are used.
pub is_used-fields :
    (s : Frames) (n c g : ℕ) → is_used (record s { free = n; cursor = c }) g ≡ is_used s g
unfolding is_used
is_used-fields s n c g = refl

pub unused-fields :
    (s : Frames) (n c k : ℕ) → unused (record s { free = n; cursor = c }) k ≡ unused s k
unused-fields s n c k =
    unused-same (record s { free = n; cursor = c }) s k (λ f h. is_used-fields s n c f)

pub taken-Allocated :
    (s : Frames) (count first stop c : ℕ)
    → IsConsistent s
    → Found s count first stop
    → c ≤ s.nframes
    → Allocated s count first (add64 s.ram_base (first * frame_size)) (taken s first count c)
taken-Allocated s count first stop c v f h =
    let same = mark_range-same s first count true in
    let fewer = unused-mark_range-true s first count s.nframes (omega (arith, f)) f.unused in
    let less =
      sub64_lem s.free count (omega (arith, v.counted, v.small, unused-le s s.nframes))
        (omega (arith, v.counted, fewer)) in
    record {
      consistent = record {
        counted = omega (
          arith,
          v.counted,
          fewer,
          less,
          unused-fields (mark_range s first count true) (sub64 s.free count) c s.nframes,
          ap (λ n. unused (taken s first count c) n) same.0,
        );
        small = omega (arith, v.small, same.0);
        cursor = omega (arith, h, same.0);
        addressed = omega (arith, v.addressed, same);
      };
      address = add64_lem s.ram_base (first * frame_size) (omega (arith, v.addressed, f));
      inside = omega (arith, f);
      unused_before = f.unused;
      marked = λ g.
          is_used-fields (mark_range s first count true) (sub64 s.free count) c g
          ∙ is_used-mark_range s first count true g;
      fewer = omega (arith, less, fewer, v.counted);
      base = same.1;
      frames = same.0;
    }

-- On a consistent allocator, a successful alloc_contiguous returns the address of count
-- consecutive frames that were in range and free; it marks exactly those as used, takes count off
-- the free counter, and stays consistent.
pub alloc_contiguous-Allocated :
    (s : Frames) (count : ℕ) {pa : ℕ}
    → IsConsistent s
    → (alloc_contiguous s count).0 ≡ some pa
    → (first : ℕ) × Allocated s count first pa (alloc_contiguous s count).1
alloc_contiguous-Allocated s count {pa} v e =
    elim (Option-cases (scan s count (2 * s.nframes) s.cursor 0)) [
      | inl nothing ↦ absurd (cc (scan-none s count nothing))
      | inr ((first, stop), found) ↦
          let a =
            taken-Allocated s count first stop stop v (Found-cursor s count first stop found)
              (Found-cursor s count first stop found).inside in
          let same : add64 s.ram_base (first * frame_size) ≡ pa =
            cc (scan-some s count first stop found) in
          (first, rw (scan-some s count first stop found, ← same) a)
    ]

-- On a consistent allocator and a count above 0, if alloc_contiguous fails then it changes nothing
-- and there are no count consecutive free frames in range: two passes of the next-fit scan from
-- any cursor are enough.
pub alloc_contiguous-none :
    (s : Frames) (count : ℕ)
    → IsConsistent s
    → 0 < count
    → (alloc_contiguous s count).0 ≡ none
    → ((alloc_contiguous s count).1 ≡ s)
      × ((first : ℕ) → first + count ≤ s.nframes → ¬ AllUsed s first count false)
alloc_contiguous-none s count v pos e =
    elim (Option-cases (scan s count (2 * s.nframes) s.cursor 0)) [
      | inl nothing ↦ (
        ap (λ r. r.1) (scan-none s count nothing),
        λ first h a.
            scan_complete s count first (2 * s.nframes) s.cursor 0 pos h a pos v.cursor
              (omega (arith, v.cursor)) nothing,
      )
      | inr ((first, stop), found) ↦ absurd (cc (scan-some s count first stop found))
    ]

-- Freeing frames that are in use makes them free, leaves the others, and counts them.
pub record Freed (s : Frames) (first count : ℕ) (t : Frames) : Type 0 where
  pub consistent : IsConsistent t
  pub marked : (f : ℕ) → is_used t f ≡ (if within first count f then false else is_used s f)
  pub more : t.free ≡ s.free + count
  pub base : t.ram_base ≡ s.ram_base
  pub frames : t.nframes ≡ s.nframes

abbrev given : Frames → ℕ → ℕ → Frames
given s first count = record (mark_range s first count false) {
  free = add64 s.free count;
  cursor = (mark_range s first count false).cursor;
}

free_at_first :
    (s : Frames) (first count : ℕ)
    → IsConsistent s
    → first + count ≤ s.nframes
    → free s (s.ram_base + first * frame_size) count ≡ given s first count
unfolding free
free_at_first s first count v h =
    let index : sub64 (s.ram_base + first * frame_size) s.ram_base / frame_size ≡ first = omega (
      arith,
      sub64_lem (s.ram_base + first * frame_size) s.ram_base (omega (arith, v.addressed))
          (omega arith),
    ) in
    rw index

-- On a consistent allocator, free of a range of frames that lies in the range of the bitmap and is
-- used throughout makes exactly these frames free, raises the free counter by their number, and
-- stays consistent.
free-Freed :
    (s : Frames) (first count : ℕ)
    → IsConsistent s
    → first + count ≤ s.nframes
    → AllUsed s first count true
    → Freed s first count (free s (s.ram_base + first * frame_size) count)
free-Freed s first count v h a =
    let same = mark_range-same s first count false in
    let freed = unused-mark_range-false s first count s.nframes h a in
    let more = add64_lem s.free count (omega (arith, v.counted, v.small, unused-le s s.nframes)) in
    rw (free_at_first s first count v h) (record {
      consistent = record {
        counted = omega (
          arith,
          v.counted,
          freed,
          more,
          unused-fields (mark_range s first count false) (add64 s.free count)
              (mark_range s first count false).cursor s.nframes,
          ap (λ n. unused (given s first count) n) same.0,
        );
        small = omega (arith, v.small, same.0);
        cursor = omega (arith, v.cursor, same);
        addressed = omega (arith, v.addressed, same);
      };
      marked = λ g.
          is_used-fields (mark_range s first count false) (add64 s.free count)
            (mark_range s first count false).cursor g
          ∙ is_used-mark_range s first count false g;
      more = more;
      base = same.1;
      frames = same.0;
    })

-- On a consistent allocator, freeing the frames that a successful alloc_contiguous returned
-- restores which frames are used and the free counter.
pub free-alloc_contiguous :
    (s : Frames) (count : ℕ) {pa : ℕ}
    → IsConsistent s
    → (alloc_contiguous s count).0 ≡ some pa
    → ((f : ℕ) → is_used (free (alloc_contiguous s count).1 pa count) f ≡ is_used s f)
      × ((free (alloc_contiguous s count).1 pa count).free ≡ s.free)
free-alloc_contiguous s count {pa} v e =
    let (first, a) = alloc_contiguous-Allocated s count v e in
    let here : (alloc_contiguous s count).1.ram_base + first * frame_size ≡ pa =
      omega (arith, a.address, a.base) in
    let all : AllUsed (alloc_contiguous s count).1 first count true =
      λ f p q. ground (arith, a.marked f) in
    let g =
      free-Freed (alloc_contiguous s count).1 first count a.consistent
        (omega (arith, a.inside, a.frames)) all in
    let g' : Freed (alloc_contiguous s count).1 first count
        (free (alloc_contiguous s count).1 pa count) =
      rw here at g in
    (
      λ f. ground (arith, g'.marked f, a.marked f, a.unused_before f),
      omega (arith, g'.more, a.fewer),
    )
