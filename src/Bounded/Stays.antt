-- ===== src/Bounded/Stays.antt =====
-- What a write to one entry leaves of an entry that has users.
use tazer.Base.{
  ℕ, suc, ◌+◌, ◌*◌, ◌≤◌, ◌<◌, ◌≡◌, ◌≢◌, Bool, true, arith, refl, sym, ◌∙◌, inl, inr, ◌⊎◌, ap,
  ==_refl, memcpy, memcpy-out, dec_lt,
}
use tazer.Bounded.Types.{Cache, Request, u32}
use tazer.Bounded.Table.{is_avail, get_block_data, block_set, set_block_data}
use tazer.Bounded.Scan.Pick.{Picked, kept, evicted}
use tazer.Bounded.Ops.{fill_entry, lookup_entry}
use tazer.Bounded.Invariant.Defs.{SameKey}
use tazer.Bounded.Invariant.Write.{Holds}
use tazer.Bounded.Invariant.Ops.{Keeps}

-- An entry whose bytes somebody reads; one more user can still be counted.
pub record IsHeld (c : Cache) (q : ℕ) : Type 0 where
  pub avail : is_avail (c.blk_index q).status ≡ true
  pub users : 0 < (c.blk_index q).active_cnt
  pub room : (c.blk_index q).active_cnt + 1 < u32

-- `d` still has what `c` had in the entry `q`, for as many users at least.
pub record Stays (c d : Cache) (q : ℕ) : Type 0 where
  pub avail : is_avail (d.blk_index q).status ≡ true
  pub key : SameKey (d.blk_index q) (c.blk_index q)
  pub users : (c.blk_index q).active_cnt ≤ (d.blk_index q).active_cnt
  pub address : get_block_data d q ≡ get_block_data c q
  pub bytes :
      (i : ℕ)
      → i < c.blk_size
      → d.memory (get_block_data c q + i) ≡ c.memory (get_block_data c q + i)

pub Stays-refl : (c : Cache) (q : ℕ) → IsHeld c q → Stays c c q
Stays-refl c q h = record {
  avail = h.avail;
  key = (refl, refl);
  users = omega arith;
  address = refl;
  bytes = λ i lt. refl;
}

-- An entry with users that was handed out was not evicted, and already held the block.
pub held-kept :
    (c d : Cache) (index file q : ℕ)
    → IsHeld c q
    → Picked c index file d q
    → (d ≡ c) × Holds (c.blk_index q) index file
held-kept c d index file q h (kept e s) = (e, ground (arith, s.fits, h.avail))
held-kept c d index file q h (evicted lo hi idle others t same) =
    absurd (ground (arith, h.users, idle.1))

-- Another entry is as it was.
pub other-Stays :
    (c d : Cache) (p q : ℕ)
    → IsHeld c q
    → Keeps c d p
    → p ≢ q
    → ((i : ℕ)
        → i < c.blk_size
        → d.memory (get_block_data c q + i) ≡ c.memory (get_block_data c q + i))
    → Stays c d q
other-Stays c d p q h k ne bytes = record {
  avail = rw (k.table q ne) h.avail;
  key = rw (k.table q ne) (refl, refl);
  users = rw (k.table q ne) (omega arith);
  address = rw k.shape refl;
  bytes = bytes;
}

-- The same entry has the block again, and as many users at least.
pub same-Stays :
    (c d : Cache) (index file q : ℕ)
    → IsHeld c q
    → Keeps c d q
    → Holds (c.blk_index q) index file
    → Holds (d.blk_index q) index file
    → is_avail (d.blk_index q).status ≡ true
    → (c.blk_index q).active_cnt ≤ (d.blk_index q).active_cnt
    → d.memory ≡ c.memory
    → Stays c d q
same-Stays c d index file q h k old new avail users m = record {
  avail = avail;
  key = (new.1 ∙ sym old.1, new.0 ∙ sym old.0);
  users = users;
  address = rw k.shape refl;
  bytes = λ i lt. ap (λ f. f (get_block_data c q + i)) m;
}

pub lookup_entry-memory :
    (d : Cache) (req : Request) (prefetch : Bool) (now p : ℕ)
    → (lookup_entry d req prefetch now p).0.memory ≡ d.memory
unfolding lookup_entry block_set
lookup_entry-memory d req prefetch now p = ground arith

pub lookup_entry-users :
    (c : Cache) (req : Request) (prefetch : Bool) (now q : ℕ)
    → IsHeld c q
    → (is_avail ((lookup_entry c req prefetch now q).0.blk_index q).status ≡ true)
      × ((c.blk_index q).active_cnt
          ≤ ((lookup_entry c req prefetch now q).0.blk_index q).active_cnt)
unfolding lookup_entry block_set
lookup_entry-users c req prefetch now q h = ground (arith, ==_refl q, h.avail, h.room)

pub fill_entry-users :
    (c : Cache) (req : Request) (now q : ℕ)
    → IsHeld c q
    → (is_avail ((fill_entry c req now q).blk_index q).status ≡ true)
      × ((c.blk_index q).active_cnt ≤ ((fill_entry c req now q).blk_index q).active_cnt)
      × ((fill_entry c req now q).memory ≡ c.memory)
unfolding fill_entry block_set set_block_data
fill_entry-users c req now q h = (
  ground (arith, ==_refl q, h.avail),
  ground (arith, ==_refl q, h.avail, h.room),
  ground (arith, h.avail),
)

-- The bytes of two blocks are apart.
blocks_apart :
    (bs p q i size : ℕ)
    → p ≢ q
    → i < bs
    → size ≤ bs
    → ¬ ((p * bs ≤ q * bs + i) × (q * bs + i < p * bs + size))
blocks_apart bs p q i size ne lt le h = elim (dec_lt p q) [
  | yes l ↦ let m : suc p * bs ≤ q * bs = grind arith in omega (arith, m, h.0, h.1)
  | no g ↦
      let k : q < p = omega arith in
      let m : suc q * bs ≤ p * bs = grind arith in omega (arith, m, h.0, h.1)
]

pub fill_entry_memory_cases :
    (d : Cache) (req : Request) (now p : ℕ)
    → ((fill_entry d req now p).memory ≡ d.memory)
      ⊎ ((fill_entry d req now p).memory
          ≡ memcpy d.memory (get_block_data d (d.blk_index p).id) d.memory req.data_ptr req.size)
unfolding fill_entry block_set set_block_data
fill_entry_memory_cases d req now p = ground arith

pub fill_entry-bytes :
    (d : Cache) (req : Request) (now p q i : ℕ)
    → (d.blk_index p).id ≡ p
    → p ≢ q
    → req.size ≤ d.blk_size
    → i < d.blk_size
    → (fill_entry d req now p).memory (get_block_data d q + i) ≡ d.memory (get_block_data d q + i)
fill_entry-bytes d req now p q i number ne fits lt = elim (fill_entry_memory_cases d req now p) [
  | inl e ↦ ap (λ m. m (get_block_data d q + i)) e
  | inr e ↦
      ap (λ m. m (get_block_data d q + i)) e
      ∙ memcpy-out d.memory _ d.memory req.data_ptr req.size _ (λ h.
        blocks_apart d.blk_size p q i req.size ne lt fits
          (omega (arith, h, ap (λ (t : ℕ). t * d.blk_size) number)))
]
