-- ===== src/Prefetch/Delta.antt =====
-- `DeltaPrefetcher::getBlocks`: a run of blocks at a configured distance from the read.
use tazer.Base.{
  ℕ, zero, suc, ◌+◌, ◌-◌, ◌*◌, ◌%◌, ◌^◌, ◌≤◌, ◌<◌, ◌≡◌, Bool, true, false, ◌&&◌, if◌then◌else◌, ltb,
  ltb→lt, List, [], ◌∷◌, length, arith, refl, ◌∙◌, lt→ltb, Bool-cases, inl, inr,
}

abbrev pub u64 : ℕ
u64 = 2 ^ 64

-- `Config::prefetchDelta`, an `int`.
pub data Delta : Type 0 where
  pos negsuc : ℕ → Delta

-- Added to a `uint64_t`.
abbrev pub residue : Delta → ℕ
residue (pos n) = n % u64
residue (negsuc n) = (u64 - suc n) % u64

abbrev pub is_positive : Delta → Bool
is_positive (pos n) = ltb 0 n
is_positive (negsuc n) = false

-- `for (blk = startBlk; blk < endBlk && blk * blkSize < fileSize; blk++)`, at most `n` rounds.
unfoldable pub run_of : ℕ → ℕ → ℕ → ℕ → ℕ → List ℕ
run_of zero blk end blk_size file_size = []
run_of (suc n) blk end blk_size file_size =
    let rest = run_of n ((blk + 1) % u64) end blk_size file_size in
    if ltb blk end && ltb (blk * blk_size % u64) file_size then blk ∷ rest else []

-- `startBlk < 0` never holds of a `uint64_t`. A round raises `blk` below `endBlk`, which is at most
-- `numBlocks` more than where it starts.
unfoldable pub get_blocks : Delta → ℕ → ℕ → ℕ → ℕ → ℕ → List ℕ
unfolding run_of
get_blocks delta start_blk end_blk num_blocks blk_size file_size =
    let from = if is_positive delta then end_blk else start_blk in
    let start = (from + residue delta) % u64 in
    let end = (start + num_blocks) % u64 in run_of num_blocks start end blk_size file_size

-- What is fetched is the run of blocks from a first one on, as long as it is inside the file.
abbrev pub RunFrom : ℕ → ℕ → ℕ → List ℕ → Type 0
RunFrom first blk_size file_size [] = Unit
RunFrom first blk_size file_size (b ∷ bs) =
    (b ≡ first) × (b * blk_size < file_size) × RunFrom (suc first) blk_size file_size bs

-- The run is whole: it has all blocks asked for, or the next block is behind the end of the file.
abbrev pub IsRun : ℕ → ℕ → ℕ → ℕ → List ℕ → Type 0
IsRun first n blk_size file_size bs =
    RunFrom first blk_size file_size bs
    × (length bs ≤ n)
    × ((length bs < n) → file_size ≤ (first + length bs) * blk_size)

times_le : (a b c : ℕ) → a ≤ b → a * c ≤ b * c
times_le a b c h = grind arith

times_pos : (a b : ℕ) → 0 < b → a ≤ a * b
times_pos a b h = grind arith

shift : (a b : ℕ) → a + suc b ≡ suc a + b
shift a b = omega arith

at_first : (a : ℕ) → a + 0 ≡ a
at_first a = omega arith

not_lt : (a b : ℕ) → ltb a b ≡ false → b ≤ a
not_lt a b h = ground arith

lt-not : (a b : ℕ) → b ≤ a → ltb a b ≡ false
lt-not a b h = ground arith

run_of-IsRun :
    (n blk end blk_size file_size : ℕ)
    → blk + n ≡ end
    → end * blk_size + blk_size < u64
    → 0 < blk_size
    → IsRun blk n blk_size file_size (run_of n blk end blk_size file_size)
unfolding run_of
run_of-IsRun zero blk end bs size e fits h = (tt, omega arith, λ lt. absurd (omega arith))
run_of-IsRun (suc n) blk end bs size e fits h =
    let low : blk * bs ≤ end * bs = times_le blk end bs (omega (arith, e)) in
    let near : end ≤ end * bs = times_pos end bs h in
    let w : blk * bs % u64 ≡ blk * bs = omega (arith, low, fits) in
    let w' : (blk + 1) % u64 ≡ suc blk = omega (arith, near, fits, e) in
    let lt : ltb blk end ≡ true = lt→ltb blk end (omega (arith, e)) in
    let r = run_of-IsRun n (suc blk) end bs size (omega (arith, e)) fits h in
    elim (Bool-cases (ltb (blk * bs) size)) [
      | inl t ↦
          rw (w, w', lt, t)
            (
              (refl, ltb→lt (blk * bs) size t, r.0),
              omega (arith, r.1),
              λ l.
                  rw (shift blk (length (run_of n (suc blk) end bs size))) (r.2 (omega (arith, l))),
            )
      | inr t ↦ rw (w, lt, t) (tt, omega arith, λ l. rw (at_first blk) (not_lt (blk * bs) size t))
    ]

together : (s x b : ℕ) → s + x ≡ u64 → s * b + x * b ≡ u64 * b
together s x b h = let d : s * b + x * b ≡ (s + x) * b = grind arith in d ∙ rw h refl

stops : (n blk end bs size : ℕ) → size ≤ blk * bs % u64 → run_of n blk end bs size ≡ []
unfolding run_of
stops zero blk end bs size h = refl
stops (suc n) blk end bs size h = elim (Bool-cases (ltb blk end)) [
  | inl e ↦ rw (e, lt-not (blk * bs % u64) size h) refl
  | inr e ↦ rw e refl
]

-- A positive delta fetches the run of blocks that starts that far behind the read: as many as are
-- configured, or as many as the file has. The numbers stay within 64 bits.
pub get_blocks-ahead :
    (n start_blk end_blk num_blocks blk_size file_size : ℕ)
    → 0 < blk_size
    → (end_blk + suc n + num_blocks) * blk_size + blk_size < u64
    → IsRun
        (end_blk + suc n)
        num_blocks
        blk_size
        file_size
        (get_blocks (pos (suc n)) start_blk end_blk num_blocks blk_size file_size)
unfolding get_blocks
get_blocks-ahead n start_blk end_blk num_blocks bs size h fits =
    let near : end_blk + suc n + num_blocks ≤ (end_blk + suc n + num_blocks) * bs =
      times_pos (end_blk + suc n + num_blocks) bs h in
    let s : (end_blk + suc n % u64) % u64 ≡ end_blk + suc n = omega (arith, near, fits) in
    let e : (end_blk + suc n + num_blocks) % u64 ≡ end_blk + suc n + num_blocks =
      omega (arith, near, fits) in
    rw (lt→ltb 0 (suc n) (omega arith), s, e, get_blocks)
      (run_of-IsRun num_blocks (end_blk + suc n) (end_blk + suc n + num_blocks) bs size refl fits h)

-- A negative delta that reaches before the first block fetches nothing at all, instead of the
-- blocks from 0 on, for files of at most 2^63 bytes and distances of at most 2^63 bytes.
pub get_blocks-before :
    (n start_blk end_blk num_blocks blk_size file_size : ℕ)
    → start_blk ≤ n
    → suc n < u64
    → 0 < blk_size
    → (suc n - start_blk) * blk_size ≤ 2 ^ 63
    → file_size ≤ 2 ^ 63
    → get_blocks (negsuc n) start_blk end_blk num_blocks blk_size file_size ≡ []
unfolding get_blocks
get_blocks-before n start_blk end_blk num_blocks bs size before small h far fits =
    let x : ℕ = suc n - start_blk in
    let s : ℕ = u64 - (suc n - start_blk) in
    let e : (start_blk + (u64 - suc n) % u64) % u64 ≡ s = omega (arith, before, small) in
    let sum : s * bs + x * bs ≡ u64 * bs = together s x bs (omega (arith, before, small)) in
    let some : x ≤ x * bs = times_pos x bs h in
    rw e (stops num_blocks s _ bs size (omega (arith, sum, some, far, fits, before, h)))
