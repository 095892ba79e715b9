-- ===== src/Frames/Boot.antt =====
-- `frames::init` (src/frames.rs): the reserved ranges are used, and the counter is right.
use veil_os.Base.{
  ◌*◌, ℕ, zero, suc, ◌+◌, ◌-◌, ◌/◌, ◌%◌, ◌^◌, ◌≤◌, ◌<◌, min, ◌≡◌, refl, sym, ap, ◌∙◌, inl, inr,
  Bool, true, false, ◌&&◌, ◌||◌, List, [], ◌∷◌, arith, ltb, leb, ◌==◌, if◌then◌else◌, Bool-cases,
}
use Prim.Native.Nat.{bit_and-bitwise}
use veil_os.Base.Word.{sub64}
use veil_os.Frames.{
  Frames, zeroed, is_used, mark, mark_range, reserve_range, reserve, reserve_all, init, frame_size,
  max_frames,
}
use veil_os.Frames.Bitmap.{within, unused}
use veil_os.Frames.Scan.{Found}
use veil_os.Frames.Alloc.{IsConsistent, taken, taken-Allocated}

-- What a step of `init` keeps, and which frames it takes.
record Reserved (s : Frames) (takes : ℕ → Bool) (t : Frames) : Type 0 where
  consistent : IsConsistent t
  marked : (f : ℕ) → is_used t f ≡ (takes f || is_used s f)
  base : t.ram_base ≡ s.ram_base
  frames : t.nframes ≡ s.nframes

reserve_one : Frames → ℕ → Frames
reserve_one s frame =
    if is_used s frame then s else record (mark s frame true) { free = sub64 s.free 1 }

one_taken :
    (s : Frames) (frame : ℕ)
    → record (mark s frame true) { free = sub64 s.free 1 } ≡ taken s frame 1 s.cursor
unfolding mark_range mark
one_taken s frame = refl

one-Reserved :
    (s : Frames) (frame : ℕ)
    → IsConsistent s
    → frame < s.nframes
    → Reserved s (λ f. f == frame) (reserve_one s frame)
unfolding reserve_one
one-Reserved s frame v h = elim (Bool-cases (is_used s frame)) [
  | inl e ↦ rw e (record { consistent = v; marked = λ f. ground arith; base = refl; frames = refl })
  | inr e ↦
      let free : Found s 1 frame (frame + 1) = record {
        length = refl;
        inside = omega arith;
        unused = λ f p q. ground arith;
      } in
      let a = taken-Allocated s 1 frame (frame + 1) s.cursor v free v.cursor in
      rw (e, one_taken s frame)
        (record {
          consistent = a.consistent;
          marked = λ f. ground (arith, a.marked f);
          base = a.base;
          frames = a.frames;
        })
]

range-Reserved :
    (s : Frames) (frame n : ℕ)
    → IsConsistent s
    → (0 < n → frame + n ≤ s.nframes)
    → Reserved s (within frame n) (reserve_range s frame n)
unfolding reserve_range reserve_one
range-Reserved s frame zero v h = record {
  consistent = v;
  marked = λ f. ground arith;
  base = refl;
  frames = refl;
}
range-Reserved s frame (suc n) v fits =
    let h : frame + suc n ≤ s.nframes = fits (omega arith) in
    let a = one-Reserved s frame v (omega arith) in
    let r =
      range-Reserved (reserve_one s frame) (frame + 1) n a.consistent
        (λ _. omega (arith, a.frames)) in
    record {
      consistent = r.consistent;
      marked = λ f. ground (arith, r.marked f, a.marked f);
      base = r.base ∙ a.base;
      frames = r.frames ∙ a.frames;
    }

-- The frames between those that the code computes for a range.
abbrev spans : ℕ → ℕ × ℕ → ℕ → Bool
spans base (start, end) f =
    ltb start end && (leb ((start - base) / frame_size) f && leb f ((end - 1 - base) / frame_size))

abbrev spanned : ℕ → List (ℕ × ℕ) → ℕ → Bool
spanned base [] f = false
spanned base (r ∷ rest) f = spans base r f || spanned base rest f

reserve-Reserved :
    (s : Frames) (r : ℕ × ℕ)
    → IsConsistent s
    → 0 < s.nframes
    → Reserved s (λ f. spans s.ram_base r f && ltb f s.nframes) (reserve s r)
unfolding reserve
reserve-Reserved s (start, end) v pos = elim (Bool-cases (leb end start)) [
  | inl e ↦ rw e (record { consistent = v; marked = λ f. ground arith; base = refl; frames = refl })
  | inr e ↦
      let first = (start - s.ram_base) / frame_size in
      let last = min ((end - 1 - s.ram_base) / frame_size) (s.nframes - 1) in
      let r = range-Reserved s first (last + 1 - first) v (λ some_frames. omega arith) in
      rw e (record {
        consistent = r.consistent;
        marked = λ f. ground (arith, r.marked f);
        base = r.base;
        frames = r.frames;
      })
]

reserve_all-Reserved :
    (s : Frames) (rs : List (ℕ × ℕ))
    → IsConsistent s
    → 0 < s.nframes
    → Reserved s (λ f. spanned s.ram_base rs f && ltb f s.nframes) (reserve_all s rs)
unfolding reserve_all
reserve_all-Reserved s [] v pos = record {
  consistent = v;
  marked = λ f. refl;
  base = refl;
  frames = refl;
}
reserve_all-Reserved s (r ∷ rest) v pos =
    let a = reserve-Reserved s r v pos in
    let b = reserve_all-Reserved (reserve s r) rest a.consistent (omega (arith, a.frames)) in
    record {
      consistent = b.consistent;
      marked = λ f.
          ground
            (arith, a.marked f, b.marked f, a.base, a.frames, ap (λ k. spanned k rest f) a.base);
      base = b.base ∙ a.base;
      frames = b.frames ∙ a.frames;
    }

-- Has the frame, from ram_base + 4096 f on, a byte in the range?
abbrev pub touches : ℕ → ℕ × ℕ → ℕ → Bool
touches base (start, end) f =
    ltb start end && (ltb start (base + (f + 1) * frame_size) && ltb (base + f * frame_size) end)

abbrev pub touched : ℕ → List (ℕ × ℕ) → ℕ → Bool
touched base [] f = false
touched base (r ∷ rest) f = touches base r f || touched base rest f

-- No range with a byte ends at or below the start of the memory.
abbrev pub EndsAbove : ℕ → List (ℕ × ℕ) → Type 0
EndsAbove base [] = Unit
EndsAbove base ((start, end) ∷ rest) = (start < end → base < end) × EndsAbove base rest

spans-touches :
    (base start end f : ℕ)
    → (start < end → base < end)
    → spans base (start, end) f ≡ touches base (start, end) f
spans-touches base start end f h = ground arith

spanned-touched :
    (base : ℕ) (rs : List (ℕ × ℕ)) (f : ℕ)
    → EndsAbove base rs
    → spanned base rs f ≡ touched base rs f
spanned-touched base [] f h = refl
spanned-touched base ((start, end) ∷ rest) f (h, t) =
    λ i. spans-touches base start end f h i || spanned-touched base rest f t i

unused-zeroed : (s : Frames) (n : ℕ) → ((f : ℕ) → is_used s f ≡ false) → unused s n ≡ n
unfolding unused
unused-zeroed s zero h = refl
unused-zeroed s (suc n) h = ground (arith, h n, unused-zeroed s n h)

started : ℕ → ℕ → Frames
unfolding zeroed
started ram_base ram_size = record zeroed {
  ram_base = ram_base;
  nframes = min (ram_size / frame_size) max_frames;
  free = min (ram_size / frame_size) max_frames;
}

started-fresh : (ram_base ram_size f : ℕ) → is_used (started ram_base ram_size) f ≡ false
unfolding started is_used
started-fresh ram_base ram_size f = rw (bit_and-bitwise 0 (2 ^ (f % 64)))

-- If the memory has at least one frame and ends below 2^64, and no reserved range that holds a
-- byte ends at or below the start of the memory, init of the zeroed statics gives a consistent
-- allocator, whose free counter is the number of its unused frames, and in which the used frames
-- below nframes are exactly those with a byte in a reserved range.
pub init-zeroed :
    (ram_base ram_size : ℕ) (reserved : List (ℕ × ℕ))
    → frame_size ≤ ram_size
    → ram_base + ram_size < 2 ^ 64
    → EndsAbove ram_base reserved
    → IsConsistent (init zeroed ram_base ram_size reserved)
      × ((f : ℕ)
          → f < (init zeroed ram_base ram_size reserved).nframes
          → is_used (init zeroed ram_base ram_size reserved) f ≡ touched ram_base reserved f)
unfolding init started
init-zeroed ram_base ram_size reserved h b above =
    let fresh = started-fresh ram_base ram_size in
    let n = min (ram_size / frame_size) max_frames in
    let v : IsConsistent (started ram_base ram_size) = record {
      counted = sym (unused-zeroed (started ram_base ram_size) n fresh);
      small = omega arith;
      cursor = omega arith;
      addressed = omega arith;
    } in
    let r = reserve_all-Reserved (started ram_base ram_size) reserved v (omega arith) in
    (
      r.consistent,
      λ f p.
          ground (arith, r.marked f, r.frames, fresh f) ∙ spanned-touched ram_base reserved f above,
    )
