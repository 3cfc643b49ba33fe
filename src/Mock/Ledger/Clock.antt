-- ===== src/Mock/Ledger/Clock.antt =====
-- The two loops over slots of vitup/src/mock/ledger_state.rs.
use mathlib.Core.Path.{subst}
use vit_testing.Prelude.{
  ℕ, zero, suc, ◌+◌, ◌*◌, ◌≤◌, ◌<◌, ◌≡◌, refl, ltb, if◌then◌else◌, arith, Bool-cases, inl, inr, ◌⊎◌,
  ge→ltb, lt→ltb, ltb→lt, ltb→ge,
}
use vit_testing.Mock.Chain.{Chain}
use vit_testing.Mock.Run.{Run, returns, running}
use vit_testing.Mock.Ledger.{
  LedgerState, count_slots, advance_slots, curr_block_date, curr_slot_start_time, nanos,
}

count_slots-late :
    (rounds now curr d n : ℕ) → curr + d ≤ now → count_slots rounds now curr d n ≡ running
unfolding count_slots
count_slots-late zero now curr d n h = refl
count_slots-late (suc r) now curr d n h =
    rw (ge→ltb now (curr + d) h) (count_slots-late r now curr d (suc n) h)

count_slots-first :
    (rounds now curr d n : ℕ)
    → count_slots (suc rounds) now curr d n ≡ (if ltb now (curr + d) then returns n else running)
unfolding count_slots
count_slots-first r now curr d n = ground (arith, count_slots-late r now curr d (suc n))

-- What a round finds: a slot that ends after `now`, the first one or one not after `now`.
Found : ℕ → ℕ → ℕ → Run ℕ → Type 0
Found now start d run =
    (j : ℕ) × (run ≡ returns (start + j * d))
    × ((j ≡ 0) ⊎ (start + j * d ≤ now))
    × (now < start + j * d + d)

Found-here :
    (rounds now start d k : ℕ)
    → now < start + k * d + d
    → (k ≡ 0) ⊎ (start + k * d ≤ now)
    → Found now start d (advance_slots (suc rounds) now (start + k * d) d)
unfolding Found advance_slots
Found-here rounds now start d k h r = (k, rw (lt→ltb _ _ h), r, h)

Found-later :
    (rounds now start d k : ℕ)
    → start + k * d + d ≤ now
    → Found now start d (advance_slots (suc rounds) now (start + suc k * d) d)
    → Found now start d (advance_slots (suc (suc rounds)) now (start + k * d) d)
unfolding advance_slots
Found-later rounds now start d k h f =
    let e : start + suc k * d ≡ start + k * d + d = omega arith in
    rw (ge→ltb _ _ h) (subst (λ x. Found now start d (advance_slots (suc rounds) now x d)) e f)

-- The rounds left pass block 0.
advance_slots-Found :
    (rounds now start d k : ℕ)
    → now < start + k * d + suc rounds * d
    → (k ≡ 0) ⊎ (start + k * d ≤ now)
    → Found now start d (advance_slots (suc rounds) now (start + k * d) d)
advance_slots-Found zero now start d k h r = Found-here zero now start d k (omega arith) r
advance_slots-Found (suc rounds) now start d k h r =
    elim (Bool-cases (ltb now (start + k * d + d))) [
      | inl b ↦ Found-here (suc rounds) now start d k (ltb→lt _ _ b) r
      | inr b ↦ Found-later rounds now start d k (ltb→ge _ _ b) (
          advance_slots-Found rounds now start d (suc k) (omega arith)
            (inr (omega (arith, ltb→ge _ _ b))))
    ]

module _ (c : Chain) where
  -- The start of block 0, and the length of a slot, in nanoseconds.
  abbrev pub block0_ns : LedgerState c → ℕ
  block0_ns s = c.block0_date s.block0_configuration * nanos

  abbrev pub slot_ns : LedgerState c → ℕ
  slot_ns s = c.slot_duration s.block0_configuration * nanos

  -- The date of the mock is always that of slot 0: with a round to run it is found at once if block 0
  -- is earlier than one slot after the start of the mock, and otherwise no number of rounds finds a
  -- date, so the loop does not end.
  pub curr_block_date_lem :
      (rounds : ℕ) (s : LedgerState c)
      → curr_block_date c (suc rounds) s ≡ (
          if ltb (block0_ns s) (s.start_time + slot_ns s)
          then returns (c.shift_slot (c.slots_per_epoch s.block0_configuration) 0)
          else running)
  unfolding curr_block_date
  curr_block_date_lem rounds s =
      rw (count_slots-first rounds (block0_ns s) s.start_time (slot_ns s) 0) (ground arith)

  curr_block_date-zero : (s : LedgerState c) → curr_block_date c zero s ≡ running
  unfolding curr_block_date count_slots
  curr_block_date-zero s = refl

  pub curr_block_date-eq-returns :
      (rounds : ℕ) (s : LedgerState c) {date : c.BlockDate}
      → curr_block_date c rounds s ≡ returns date
      → (r : ℕ) × (rounds ≡ suc r) × (block0_ns s < s.start_time + slot_ns s)
  curr_block_date-eq-returns zero s h = cc (curr_block_date-zero s)
  curr_block_date-eq-returns (suc r) s h = (r, refl, ground (arith, curr_block_date_lem r s))

  -- A slot of the mock: a whole number of slots after its start, not after block 0 unless it is the
  -- first, and ending after block 0.
  pub record IsSlot (s : LedgerState c) (t : ℕ) : Type 0 where
    pub slots : ℕ
    pub starts : t ≡ s.start_time + slots * slot_ns s
    pub reached : (slots ≡ 0) ⊎ (t ≤ block0_ns s)
    pub current : block0_ns s < t + slot_ns s

  -- If the rounds, at least one, reach past block 0, the start of the current slot is found: a
  -- whole number of slots after the start of the mock, not after block 0 unless it is the first,
  -- and ending after block 0.
  pub curr_slot_start_time-IsSlot :
      (rounds : ℕ) (s : LedgerState c)
      → block0_ns s < s.start_time + suc rounds * slot_ns s
      → (t : ℕ) × (curr_slot_start_time c (suc rounds) s ≡ returns t) × IsSlot s t
  unfolding curr_slot_start_time Found
  curr_slot_start_time-IsSlot rounds s h =
      let (j, e, r, b) =
        advance_slots-Found rounds (block0_ns s) s.start_time (slot_ns s) 0 (omega arith)
          (inl refl) in
      let first : s.start_time + 0 * slot_ns s ≡ s.start_time = omega arith in
      (
        s.start_time + j * slot_ns s,
        subst
            (λ x.
              advance_slots (suc rounds) (block0_ns s) x (slot_ns s)
              ≡ returns (s.start_time + j * slot_ns s))
            first e,
        record { slots = j; starts = refl; reached = r; current = b },
      )
