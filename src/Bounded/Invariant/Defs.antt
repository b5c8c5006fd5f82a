-- ===== src/Bounded/Invariant/Defs.antt =====
-- What is true of the block table between two operations.
use tazer.Base.{ℕ, suc, ◌+◌, ◌*◌, ◌≤◌, ◌<◌, ◌≡◌, ◌≢◌, false, none, arith, dec_lt}
use tazer.Bounded.Types.{Cache, BlockEntry}
use tazer.Bounded.Table.{is_empty, is_evict, is_wr, get_bin_index, bin_start}

-- The table index `p` lies in the bin `b`.
abbrev pub InBin : Cache → ℕ → ℕ → Type 0
InBin c b p = (bin_start c b ≤ p) × (p < bin_start c b + c.associativity)

abbrev pub IsUsed : Cache → ℕ → Type 0
IsUsed c p = is_empty (c.blk_index p).status ≡ false

abbrev pub SameKey : BlockEntry → BlockEntry → Type 0
SameKey e f = (e.file_index ≡ f.file_index) × (e.block_index ≡ f.block_index)

pub record IsWellFormed (c : Cache) : Type 0 where
  -- Each entry carries its own index.
  pub numbered : (p : ℕ) → (c.blk_index p).id ≡ p
  -- No entry stays marked for eviction.
  pub settled : (p : ℕ) → is_evict (c.blk_index p).status ≡ false
  -- No entry is in the state of a write under way.
  pub quiet : (p : ℕ) → is_wr (c.blk_index p).status ≡ false
  -- The file of a used entry is registered.
  pub known : (p : ℕ) → IsUsed c p → c.file_map (c.blk_index p).file_index ≢ none
  -- A used entry lies in the bin of its block.
  pub placed :
      (p b : ℕ)
      → InBin c b p
      → IsUsed c p
      → get_bin_index c (c.blk_index p).block_index (c.blk_index p).file_index ≡ b
  -- The used entries of a bin come before the empty ones.
  pub packed : (p q b : ℕ) → InBin c b p → InBin c b q → p ≤ q → IsUsed c q → IsUsed c p
  -- No block has two entries.
  pub unique :
      (p q b : ℕ)
      → InBin c b p
      → InBin c b q
      → IsUsed c p
      → IsUsed c q
      → SameKey (c.blk_index p) (c.blk_index q)
      → p ≡ q

bin_lower : (a b b' p : ℕ) → b * a ≤ p → p < b' * a + a → b ≤ b'
bin_lower a b b' p lo hi = elim (dec_lt b' b) [
  | yes lt ↦ absurd (let m : suc b' * a ≤ b * a = grind arith in omega (arith, m))
  | no ge ↦ omega arith
]

-- An index lies in one bin only.
pub InBin-unique : (c : Cache) (b b' p : ℕ) → InBin c b p → InBin c b' p → b ≡ b'
InBin-unique c b b' p h k =
    let l : b ≤ b' = bin_lower c.associativity b b' p h.0 k.1 in
    let r : b' ≤ b = bin_lower c.associativity b' b p k.0 h.1 in omega arith
