-- ===== src/H264/Trailing.antt =====
-- When there is more data (src/h264/bits.rs).
use veil_os.H264.{BitReader, bit_at, total, last_set, more_rbsp_data}
use veil_os.Base.{
  ℕ, zero, suc, ◌≤◌, ◌<◌, ◌≡◌, sym, ◌↔◌, inl, inr, true, List, arith, ◌==◌, Bool-cases, ==_iff, set,
}

last_set-ge : (d : List ℕ) (n i : ℕ) → i < n → bit_at d i ≡ 1 → i ≤ last_set d n
unfolding last_set
last_set-ge d zero i h e = absurd (omega arith)
last_set-ge d (suc n) i h e = elim (Bool-cases (bit_at d n == 1)) [
  | inl here ↦ rw here (omega arith)
  | inr clear ↦ elim (Bool-cases (i == n)) [
    | inl at ↦
        let impossible : bit_at d n ≡ 1 = rw (sym ((==_iff i n).0 at)) e in absurd (ground arith)
    | inr before ↦ rw clear (last_set-ge d n i (ground arith) e)
  ]
]

last_set_lem :
    (d : List ℕ) (n : ℕ) → 0 < last_set d n → (last_set d n < n) × (bit_at d (last_set d n) ≡ 1)
unfolding last_set
last_set_lem d zero h = absurd (omega arith)
last_set_lem d (suc n) h = elim (Bool-cases (bit_at d n == 1)) [
  | inl here ↦ rw here (omega arith, (==_iff (bit_at d n) 1).0 here)
  | inr clear ↦
      let (below, set) = last_set_lem d n (rw clear at h) in rw clear (omega (arith, below), set)
]

-- more_rbsp_data answers true exactly when a bit that is set stands after the position of the
-- reader and within the data.
more_rbsp_data_iff :
    (r : BitReader)
    → (more_rbsp_data r ≡ true) ↔ ((i : ℕ) × (r.pos < i) × (i < total r) × (bit_at r.rbsp i ≡ 1))
unfolding more_rbsp_data
more_rbsp_data_iff r = (found, known)
  where
    found : more_rbsp_data r ≡ true → (i : ℕ) × (r.pos < i) × (i < total r) × (bit_at r.rbsp i ≡ 1)
    found e =
        let far : r.pos < last_set r.rbsp (total r) = ground arith in
        let (below, set) = last_set_lem r.rbsp (total r) (omega (arith, far)) in
        (last_set r.rbsp (total r), far, below, set)

    known :
        ((i : ℕ) × (r.pos < i) × (i < total r) × (bit_at r.rbsp i ≡ 1)) → more_rbsp_data r ≡ true
    known (i, after, within, set) = ground (arith, last_set-ge r.rbsp (total r) i within set)
