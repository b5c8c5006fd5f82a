-- ===== src/Pool/Drain.antt =====
-- The wait of `terminate` for the queue to drain. Every read of `_q.size()` is one entry of `size`,
-- in the order of the reads, since workers take tasks between any two of them.
use tazer.Base.{
  ℕ, zero, suc, ◌+◌, ◌*◌, ◌-◌, ◌<◌, ◌≤◌, ◌≡◌, ◌⊎◌, false, if◌then◌else◌, ◌==◌, ltb, Option, none,
  some, arith, refl, sym, inl, inr, Bool-cases, ==_iff, dec_lt, lt→ltb,
}

-- The state of the loop where its condition is tested: the number of the next read, `cur_size`
-- and `timeout_cnt`.
pub record DrainState : Type 0 where
  pub read : ℕ
  pub cur_size : ℕ
  pub timeout_cnt : ℕ

-- One round: `timeout_cnt++`, the sleep, and the comparison.
unfoldable pub poll : (ℕ → ℕ) → DrainState → DrainState
poll size w =
    if w.cur_size == size (suc w.read)
    then record { read = suc (suc w.read); cur_size = w.cur_size; timeout_cnt = w.timeout_cnt + 1 }
    else record {
      read = suc (suc (suc w.read));
      cur_size = size (suc (suc w.read));
      timeout_cnt = 0;
    }

-- The loop with the rounds that it may take as fuel; none if they do not suffice.
unfoldable pub wait_drain : ℕ → (ℕ → ℕ) → DrainState → Option DrainState
unfolding poll
wait_drain zero size w = none
wait_drain (suc fuel) size w =
    let rest = wait_drain fuel size (poll size w) in
    if size w.read == 0 then some w else if ltb w.timeout_cnt 10 then rest else some w

abbrev pub start_poll : (ℕ → ℕ) → DrainState
start_poll size = record { read = 1; cur_size = size 0; timeout_cnt = 0 }

-- No task is added while the pool waits.
abbrev pub IsDraining : (ℕ → ℕ) → Type 0
IsDraining size = (j : ℕ) → size (suc j) ≤ size j

-- The last `2 * timeout_cnt - 1` reads saw `cur_size` tasks.
pub record IsDrainState (size : ℕ → ℕ) (w : DrainState) : Type 0 where
  pub above : size w.read ≤ w.cur_size
  pub stuck : (j : ℕ) → w.read < j + 2 * w.timeout_cnt → j < w.read → size j ≡ w.cur_size
  pub few : w.timeout_cnt ≤ 10

abbrev measure : DrainState → ℕ
measure w = 10 * w.cur_size + (10 - w.timeout_cnt)

module _ (size : ℕ → ℕ) (draining : IsDraining size) where
  poll-IsDrainState :
      (w : DrainState)
      → IsDrainState size w
      → w.timeout_cnt < 10
      → IsDrainState size (poll size w) × (measure (poll size w) < measure w)
  unfolding poll
  poll-IsDrainState w h lt = elim (Bool-cases (w.cur_size == size (suc w.read))) [
    | inl e ↦
        let same : w.cur_size ≡ size (suc w.read) = (==_iff _ _).0 e in
        rw (e) (
          record {
            above = omega (arith, same, draining (suc w.read));
            stuck = λ j late before. elim (dec_lt j w.read) [
              | yes p ↦ h.stuck j (omega arith) p
              | no p ↦ elim (dec_lt w.read j) [
                | yes q ↦ let z : j ≡ suc w.read = omega arith in rw (z) (sym same)
                | no q ↦
                    let z : j ≡ w.read = omega arith in
                    rw (z) (omega (arith, same, h.above, draining w.read))
              ]
            ];
            few = omega arith;
          },
          omega arith,
        )
    | inr e ↦ rw (e) (
      record {
        above = draining (suc (suc w.read));
        stuck = λ j late before. absurd (omega arith);
        few = omega arith;
      },
      ground (arith, e, draining (suc w.read), draining w.read, h.above),
    )
  ]

  wait_drain_within :
      (fuel : ℕ) (w : DrainState)
      → IsDrainState size w
      → measure w < fuel
      → (end : DrainState) × (wait_drain fuel size w ≡ some end)
        × ((size end.read ≡ 0) ⊎ ((end.timeout_cnt ≡ 10) × IsDrainState size end))
  unfolding wait_drain
  wait_drain_within zero w h lt = absurd (omega arith)
  wait_drain_within (suc fuel) w h lt = elim (Bool-cases (size w.read == 0)) [
    | inl e ↦ rw (e) (w, refl, inl ((==_iff _ _).0 e))
    | inr e ↦ rw (e) (elim (dec_lt w.timeout_cnt 10) [
      | yes p ↦
          let (next, less) = poll-IsDrainState w h p in
          rw (lt→ltb _ _ p) (wait_drain_within fuel (poll size w) next (omega (arith, less)))
      | no p ↦
          let full : w.timeout_cnt ≡ 10 = omega (arith, h.few) in
          let over : ltb w.timeout_cnt 10 ≡ false = ground arith in
          rw (over) (w, refl, inr (full, h))
    ])
  ]

  -- While no task is added, the wait of terminate ends within ten rounds for each task that was
  -- queued and eleven more: where a read found the queue empty, or where it stands at a number of
  -- tasks that every one of the last 19 reads found.
  pub wait_drain-ends :
      (end : DrainState) × (wait_drain (10 * size 0 + 11) size (start_poll size) ≡ some end)
      × ((size end.read ≡ 0) ⊎ ((j : ℕ) → end.read < j + 20 → j < end.read → size j ≡ end.cur_size))
  wait_drain-ends =
      let (end, e, how) =
        wait_drain_within (10 * size 0 + 11) (start_poll size) start (omega arith) in
      (
        end,
        e,
        elim how [
          | inl z ↦ inl z
          | inr (full, h) ↦ inr (λ j late before. h.stuck j (omega (arith, full)) before)
        ],
      )
    where
      start : IsDrainState size (start_poll size)
      start = record {
        above = draining 0;
        stuck = λ j late before. absurd (omega arith);
        few = omega arith;
      }
