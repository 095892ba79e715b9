-- ===== src/Syscall/Files.antt =====
-- The descriptor that an open file takes (src/syscall.rs).
use veil_os.Sched.{File}
use veil_os.Syscall.{put_file, file_at}
use veil_os.Base.{ℕ, zero, suc, ◌<◌, ◌≡◌, refl, ap, ◌≢◌, List, [], ◌∷◌, Option, none, some, arith}

-- The slot `i` was the first free one, holds the file now, and is the only one that changed.
pub record Placed (file : File) (fds : List (Option File)) (i : ℕ) (after : List (Option File))
    : Type 0 where
  pub free : file_at fds i ≡ none
  pub here : file_at after i ≡ some file
  pub other : (j : ℕ) → j ≢ i → file_at after j ≡ file_at fds j
  pub lowest : (j : ℕ) → j < i → file_at fds j ≢ none

put_file-free : (file : File) (fds : List (Option File)) → file_at fds (put_file file fds).0 ≡ none
unfolding put_file file_at
put_file-free file [] = refl
put_file-free file (none ∷ rest) = refl
put_file-free file (some f ∷ rest) = put_file-free file rest

put_file-here :
    (file : File) (fds : List (Option File))
    → file_at (put_file file fds).1 (put_file file fds).0 ≡ some file
unfolding put_file file_at
put_file-here file [] = refl
put_file-here file (none ∷ rest) = refl
put_file-here file (some f ∷ rest) = put_file-here file rest

put_file-other :
    (file : File) (fds : List (Option File)) (j : ℕ)
    → j ≢ (put_file file fds).0
    → file_at (put_file file fds).1 j ≡ file_at fds j
unfolding put_file file_at
put_file-other file [] zero n = absurd (n refl)
put_file-other file [] (suc j) n = refl
put_file-other file (none ∷ rest) zero n = absurd (n refl)
put_file-other file (none ∷ rest) (suc j) n = refl
put_file-other file (some f ∷ rest) zero n = refl
put_file-other file (some f ∷ rest) (suc j) n = put_file-other file rest j (λ e. n (ap suc e))

put_file-lowest :
    (file : File) (fds : List (Option File)) (j : ℕ)
    → j < (put_file file fds).0
    → file_at fds j ≢ none
unfolding put_file file_at
put_file-lowest file [] j h e = absurd (omega arith)
put_file-lowest file (none ∷ rest) j h e = absurd (omega arith)
put_file-lowest file (some f ∷ rest) zero h e = cc
put_file-lowest file (some f ∷ rest) (suc j) h e = put_file-lowest file rest j (omega arith) e

-- The descriptor that an opened file takes was free, no lower descriptor is free, it holds the
-- file afterwards, and every other descriptor is unchanged.
put_file-Placed :
    (file : File) (fds : List (Option File))
    → Placed file fds (put_file file fds).0 (put_file file fds).1
put_file-Placed file fds = record {
  free = put_file-free file fds;
  here = put_file-here file fds;
  other = put_file-other file fds;
  lowest = put_file-lowest file fds;
}
