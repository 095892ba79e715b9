-- ===== src/Tls/Buffer.antt =====
-- A record is found whatever the reads it comes in (src/tls.rs).
use Prim.Native.Nat.{bit_or}
use mathlib.Core.List.{append_assoc, append-nil}
use veil_os.Base.Slices.{drop-within, take-within, slice-within, get_or-within}
use veil_os.Tls.Stream.{Record, take_record, Rx, found_record, rx_record}
use veil_os.Base.{
  ℕ, ◌+◌, ◌*◌, ◌^◌, ◌≤◌, ◌≡◌, refl, sym, ap, ◌∙◌, inl, inr, false, List, [], ◌∷◌, ◌++◌, Option,
  some, arith, ltb, Bool-cases, some_inj, Option-cases, concat, length, length-append, get_or, take,
  drop,
}

-- More bytes behind a whole record change nothing of it.
pub take_record-append :
    (b more : List ℕ) {r : Record} {rest : List ℕ}
    → take_record b ≡ some (r, rest)
    → take_record (b ++ more) ≡ some (r, rest ++ more)
unfolding take_record
take_record-append b more e =
    let len = bit_or (get_or b 3 0 * 2 ^ 8) (get_or b 4 0) in
    elim (Bool-cases (ltb (length b) 5)) [
      | inl short ↦ let impossible = rw short at e in absurd (cc)
      | inr begun ↦ elim (Bool-cases (ltb (length b) (5 + len))) [
        | inl part ↦ let impossible = rw (begun, part) at e in absurd (cc)
        | inr whole ↦
            let five : 5 ≤ length b = ground arith in
            let inside : 5 + len ≤ length b = ground arith in
            let begun' : ltb (length (b ++ more)) 5 ≡ false =
              ground (arith, length-append b more) in
            let whole' : ltb (length (b ++ more)) (5 + len) ≡ false =
              ground (arith, length-append b more) in
            let grown : take_record (b ++ more)
                ≡ some (
                  record { rtype = get_or b 0 0; header = take 5 b; body = take len (drop 5 b) },
                  drop (5 + len) b ++ more,
                ) =
              rw
                (
                  get_or-within b more 0 0 (omega arith),
                  get_or-within b more 3 0 (omega arith),
                  get_or-within b more 4 0 (omega arith),
                  begun',
                  whole',
                  take-within 5 b more five,
                  slice-within 5 len b more inside,
                  drop-within (5 + len) b more inside,
                )
                refl in
            let found = some_inj (rw (begun, whole) at e) in
            grown ∙ ap (λ (w : Record × List ℕ). some (w.0, w.1 ++ more)) found
      ]
    ]

the_pair : Option Record → Rx → Option Record × Rx
the_pair r rx = (r, rx)

-- A buffer that waits for more, with what comes, is the buffer with all of it.
pub rx_record_lem :
    (reads : List (List ℕ)) (buf : List ℕ) (r : Record) (rest : List ℕ)
    → take_record (buf ++ concat reads) ≡ some (r, rest)
    → (rx : Rx) × (rx_record buf reads ≡ (some r, rx)) × (rx.buf ++ concat rx.reads ≡ rest)
unfolding rx_record found_record the_pair
rx_record_lem [] buf r rest e =
    let here = ap take_record (sym (append-nil buf)) ∙ e in
    (record { buf = rest; reads = [] }, rw here refl, append-nil rest)
rx_record_lem (c ∷ reads) buf r rest e =
    let (rx, found, left) =
      rx_record_lem reads (buf ++ c) r rest
        (ap take_record (append_assoc buf c (concat reads)) ∙ e) in
    elim (Option-cases (take_record buf)) [
      | inl waits ↦ (rx, rw (waits, found) refl, left)
      | inr ((r', rest'), here) ↦
          let pair = some_inj (sym (take_record-append buf (c ++ concat reads) here) ∙ e) in
          let rx' : Rx = record { buf = rest'; reads = c ∷ reads } in
          (
            rx',
            rw here (ap (λ (w : Record × List ℕ). (the_pair (some w.0) rx')) pair),
            ap (λ (w : Record × List ℕ). w.1) pair,
          )
    ]
