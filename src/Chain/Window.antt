-- ===== src/Chain/Window.antt =====
-- The window of request times: `updateRequestTime` of src/caches/Cache.cpp.
use tazer.Base.{
  ℕ, zero, suc, ◌+◌, ◌-◌, ◌%◌, ◌^◌, ◌≤◌, ◌<◌, ◌≡◌, ◌≢◌, if◌then◌else◌, ◌==◌, List, [], ◌∷◌, length,
  All, ==_iff, ltb, update, update-ne, update_self, arith, refl, sym, ◌∙◌, Bool-cases, inl, inr,
}

abbrev pub u64 : ℕ
u64 = 2 ^ 64

-- `_ioWinSize`.
abbrev pub io_win_size : ℕ
io_win_size = 100

-- `_curIoTime`, `_ioIndex`, `_ioCnt` and `_ioTimes`.
pub record Window : Type 0 where
  pub cur_io_time : ℕ
  pub io_index : ℕ
  pub io_cnt : ℕ
  pub io_times : ℕ → ℕ

-- What the constructor leaves.
abbrev pub new_window : Window
new_window = record { cur_io_time = 0; io_index = 0; io_cnt = 0; io_times = λ _. 0 }

-- `updateRequestTime`; the index and the count are `uint8_t`.
unfoldable pub update_request_time : Window → ℕ → Window
update_request_time w time =
    let my_index = w.io_index % io_win_size in
    record {
      cur_io_time = ((w.cur_io_time + u64 - w.io_times my_index) % u64 + time) % u64;
      io_index = (w.io_index + 1) % 256;
      io_cnt = if ltb w.io_cnt io_win_size then (w.io_cnt + 1) % 256 else w.io_cnt;
      io_times = update w.io_times my_index time;
    }

-- The times of a sequence of requests.
unfoldable pub record_all : Window → List ℕ → Window
unfolding update_request_time
record_all w [] = w
record_all w (t ∷ ts) = record_all (update_request_time w t) ts

-- The sum of the first `n` times.
unfoldable pub total : ℕ → (ℕ → ℕ) → ℕ
total zero f = 0
total (suc n) f = total n f + f n

total-out : (n : ℕ) (f : ℕ → ℕ) (i v : ℕ) → n ≤ i → total n (update f i v) ≡ total n f
unfolding total
total-out zero f i v le = refl
total-out (suc n) f i v le =
    omega (
      arith,
      total-out n f i v (omega arith),
      update-ne f i v n (λ e. absurd (omega (arith, e, le))),
    )

-- A change of one time changes the sum by as much.
total-update :
    (n : ℕ) (f : ℕ → ℕ) (i v : ℕ)
    → i < n
    → (total n (update f i v) + f i ≡ total n f + v) × (f i ≤ total n f)
unfolding total
total-update zero f i v lt = absurd (omega arith)
total-update (suc n) f i v lt = elim (Bool-cases (i == n)) [
  | inl e ↦
      let s : i ≡ n = (==_iff i n).0 e in
      rw s (omega (arith, total-out n f n v (omega arith), update_self f n v), omega arith)
  | inr e ↦
      let ne : i ≢ n = λ h. absurd (cc (sym ((==_iff i n).1 h) ∙ e)) in
      let r = total-update n f i v (omega arith) in
      (omega (arith, r.0, update-ne f i v n ne), omega (arith, r.1))
]

-- The running sum is that of the window, and the count that of the requests, at most the window's.
pub record IsSum (w : Window) (seen : ℕ) : Type 0 where
  pub sum : w.cur_io_time ≡ total io_win_size w.io_times % u64
  pub count : w.io_cnt ≡ (if ltb seen io_win_size then seen else io_win_size)
  pub small : (i : ℕ) → w.io_times i < u64

small_update :
    (f : ℕ → ℕ) (i v : ℕ) → ((j : ℕ) → f j < u64) → v < u64 → (j : ℕ) → update f i v j < u64
small_update f i v h hv j = elim (Bool-cases (i == j)) [ inl e ↦ rw e hv | inr e ↦ rw e (h j) ]

update_request_time-IsSum :
    (w : Window) (seen time : ℕ)
    → time < u64
    → IsSum w seen
    → IsSum (update_request_time w time) (suc seen)
unfolding update_request_time
update_request_time-IsSum w seen time small h =
    let i : ℕ = w.io_index % io_win_size in
    let r = total-update io_win_size w.io_times (w.io_index % io_win_size) time (omega arith) in
    record {
      sum = omega (arith, r.0, r.1, h.sum, h.small (w.io_index % io_win_size), small);
      count = ground (arith, h.count);
      small = small_update w.io_times (w.io_index % io_win_size) time h.small small;
    }

run-IsSum :
    (ts : List ℕ) (w : Window) (seen : ℕ)
    → All (λ t. t < u64) ts
    → IsSum w seen
    → IsSum (record_all w ts) (seen + length ts)
unfolding record_all
run-IsSum [] w seen h s = rw (let e : seen + 0 ≡ seen = omega arith in e) s
run-IsSum (t ∷ ts) w seen h s =
    rw (let e : seen + suc (length ts) ≡ suc seen + length ts = omega arith in e) (
      run-IsSum ts (update_request_time w t) (suc seen) h.1
        (update_request_time-IsSum w seen t h.0 s))

total_zero : (n : ℕ) → total n (λ _. 0) ≡ 0
unfolding total
total_zero zero = refl
total_zero (suc n) = omega (arith, total_zero n)

-- After any sequence of requests with 64-bit times on a new cache, the running sum that
-- `getRequestTime` averages is the sum of the stored times modulo 2^64, and the count it divides by
-- is the number of requests, or the size of the window where there have been more.
pub record_all-IsSum :
    (ts : List ℕ) → All (λ t. t < u64) ts → IsSum (record_all new_window ts) (length ts)
record_all-IsSum ts h = rw (← (let e : 0 + length ts ≡ length ts = omega arith in e)) (
    run-IsSum ts new_window 0 h (record {
      sum = omega (arith, total_zero io_win_size);
      count = refl;
      small = λ i. omega arith;
    }))
