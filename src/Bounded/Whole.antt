-- ===== src/Bounded/Whole.antt =====
-- What whole calls of `readBlock` and `writeBlock` leave of the memory and of a held block, over a
-- next level that leaves the bytes in question alone.
use tazer.Base.{
  ℕ, ◌+◌, ◌≤◌, ◌<◌, ◌≡◌, ◌≢◌, Bool, not, ◌||◌, ◌==◌, leb, ◌⊎◌, inl, inr, refl, ◌∙◌, sym, Bool-cases,
  ==_ne, ap,
}
use tazer.Bounded.Types.{Cache, Request, Outcome, ok}
use tazer.Bounded.Table.{touch_file, get_block_data}
use tazer.Bounded.Ops.{
  Level, Reads, ReadStep, hit, forward, wait, lookup_block, finish_read, forward_read, read_block,
  store_block, release_block, forward_write, write_block, sized,
}
use tazer.Bounded.Invariant.Defs.{IsWellFormed}
use tazer.Bounded.Invariant.Calls.{Leaves, Leaves-bind, touched-IsWellFormed}
use tazer.Bounded.Invariant.Release.{release_block-cases}
use tazer.Bounded.Stays.{IsHeld, Stays, Stays-refl}
use tazer.Bounded.Held.{lookup_block-Stays, store_block-Stays}
use tazer.Bounded.Geometry.{IsTiled, store_block-outside}

-- No call of the level that returns changes the byte at `a`.
pub record Spares {S : Type 0} (next : Level S) (a : ℕ) : Type 0 where
  pub read :
      (s : S) (m : ℕ → ℕ) (req : Request) (reads : Reads) (priority : ℕ)
      → Leaves (λ r. r.1 a ≡ m a) (next.read_block s m req reads priority)
  pub write :
      (s : S) (m : ℕ → ℕ) (req : Request) → Leaves (λ r. r.1 a ≡ m a) (next.write_block s m req)

-- No call changes the bytes of the entry.
abbrev pub SparesBlock : {S : Type 0} → Level S → Cache → ℕ → Type 0
SparesBlock next c q = (i : ℕ) → i < c.blk_size → Spares next (get_block_data c q + i)

pub Leaves-ok {ℓ} :
    {A : Type ℓ} (P : A → Type 0) (m : Outcome A) (a : A) → Leaves P m → m ≡ ok a → P a
Leaves-ok P m a h e = let x : Leaves P (ok a) = rw e at h in x

Stays-memory :
    (c d : Cache) (q : ℕ) (m : ℕ → ℕ)
    → Stays c d q
    → ((i : ℕ) → i < c.blk_size → m (get_block_data c q + i) ≡ d.memory (get_block_data c q + i))
    → Stays c (record d { memory = m }) q
Stays-memory c d q m h same = record {
  avail = h.avail;
  key = h.key;
  users = h.users;
  address = h.address;
  bytes = λ i lt. same i lt ∙ h.bytes i lt;
}

module _ {S : Type 0} (next : Level S) (c : Cache) (q : ℕ) (spared : SparesBlock next c q) where
  forward_read-Stays :
      (d : Cache) (s : S) (req : Request) (reads : Reads) (priority : ℕ)
      → Stays c d q
      → Leaves (λ r. Stays c r.0 q) (forward_read next d s req reads priority)
  unfolding forward_read
  forward_read-Stays d s req reads priority h =
      Leaves-bind _ (next.read_block s d.memory req reads priority) _ (λ r e.
        Stays-memory c d q r.1 h
          (λ i lt. Leaves-ok _ _ r ((spared i lt).read s d.memory req reads priority) e))

  finish_read-Stays :
      (s : S) (reads : Reads) (priority : ℕ) (r : Cache × Request × ReadStep)
      → Stays c r.0 q
      → Leaves (λ r. Stays c r.0 q) (finish_read next s reads priority r)
  unfolding finish_read
  finish_read-Stays s reads priority (d, req, hit) h = h
  finish_read-Stays s reads priority (d, req, forward) h =
      forward_read-Stays d s req reads priority h
  finish_read-Stays s reads priority (d, req, wait id) h = h

  forward_write-Stays :
      (d : Cache) (s : S) (req : Request) (ret : Bool)
      → Stays c d q
      → Leaves (λ r. Stays c r.0 q) (forward_write next d s req ret)
  unfolding forward_write
  forward_write-Stays d s req ret h = Leaves-bind _ (next.write_block s d.memory req) _ (λ r e.
      Stays-memory c d q r.1 h (λ i lt. Leaves-ok _ _ r ((spared i lt).write s d.memory req) e))

  module _ (wf : IsWellFormed c) (h : IsHeld c q) where
    touched-IsHeld : (file : ℕ) → IsHeld (touch_file c file) q
    unfolding touch_file
    touched-IsHeld file = record { avail = h.avail; users = h.users; room = h.room }

    touched-Stays : (file : ℕ) (d : Cache) → Stays (touch_file c file) d q → Stays c d q
    unfolding touch_file
    touched-Stays file d k = record {
      avail = k.avail;
      key = k.key;
      users = k.users;
      address = k.address;
      bytes = k.bytes;
    }

    -- In a well-formed cache over a next level that leaves the bytes of an entry alone, an available
    -- entry with users (fewer than the counter can hold, less one) comes through every call of
    -- `readBlock` that returns: available, for the same block, at the same address with the same
    -- bytes, and with as many users at least.
    pub read_block-Stays :
        (s : S) (req : Request) (reads : Reads) (priority now : ℕ)
        → Leaves (λ r. Stays c r.0 q) (read_block next c s req reads priority now)
    unfolding read_block
    read_block-Stays s req reads priority now = elim (Bool-cases (leb r.size d.blk_size)) [
      | inl e ↦
          rw (e, read_block)
            (finish_read-Stays s reads priority (lookup_block d r (not (priority == 0)) now) (
              touched-Stays req.file_idx _ (
                lookup_block-Stays d r q (touched-IsWellFormed c req.file_idx wf)
                  (touched-IsHeld req.file_idx) (not (priority == 0)) now)))
      | inr e ↦ rw (e, read_block) tt
    ]
      where
        d : Cache
        d = touch_file c req.file_idx

        r : Request
        r = sized d req

    stored-Stays :
        (req : Request) (now : ℕ) → Stays c (store_block (touch_file c req.file_idx) req now).0 q
    stored-Stays req now = touched-Stays req.file_idx _ (
        store_block-Stays (touch_file c req.file_idx) req q (touched-IsWellFormed c req.file_idx wf)
          (touched-IsHeld req.file_idx) now)

    -- In a well-formed cache over a next level that leaves the bytes of an entry alone, an available
    -- entry with users (fewer than the counter can hold, less one) comes through every call of
    -- `writeBlock` for a request that another cache answered, if the call returns: available, for
    -- the same block, at the same address with the same bytes, and with as many users at least.
    pub write_block-Stays :
        (s : S) (req : Request) (now : ℕ)
        → req.originating.address ≢ c.self
        → Leaves (λ r. Stays c r.0 q) (write_block next c s req now)
    unfolding write_block
    write_block-Stays s req now foreign =
        elim (Bool-cases (not (req.reserved_map c.self == 0) || not c.terminating)) [
          | inl e ↦
              rw (e, ==_ne req.originating.address c.self foreign, write_block)
                (forward_write-Stays _ s req _ (stored-Stays req now))
          | inr e ↦ rw (e, write_block) (forward_write-Stays c s req _ (Stays-refl c q h))
        ]

module _ {S : Type 0} (next : Level S) (c : Cache) (a : ℕ) (wf : IsWellFormed c)
    (t : IsTiled c.shape) (outside : (a < c.blocks) ⊎ (c.blocks + c.cache_size ≤ a))
    (spared : Spares next a) where
  forward_write-outside :
      (d : Cache) (s : S) (req : Request) (ret : Bool)
      → d.memory a ≡ c.memory a
      → Leaves (λ r. r.0.memory a ≡ c.memory a) (forward_write next d s req ret)
  unfolding forward_write
  forward_write-outside d s req ret h =
      Leaves-bind _ (next.write_block s d.memory req) _
        (λ r e. Leaves-ok _ _ r (spared.write s d.memory req) e ∙ h)

  stored-outside :
      (req : Request) (now : ℕ)
      → (store_block (touch_file c req.file_idx) req now).0.memory a ≡ c.memory a
  unfolding touch_file
  stored-outside req now =
      store_block-outside (touch_file c req.file_idx) req now
        (touched-IsWellFormed c req.file_idx wf) t a outside

  released-outside :
      (d e : Cache) (req : Request) → release_block d req ≡ ok e → e.memory ≡ d.memory
  released-outside d e req h =
      let (_, _, k) = release_block-cases d e req h in
      elim k [ inl (_, s) ↦ ap (λ k. k.memory) (sym s) | inr (_, s) ↦ ap (λ k. k.memory) (sym s) ]

  -- In a well-formed cache whose bins tile the table and whose table tiles `_blocks`, over a next
  -- level that leaves a byte outside `_blocks` alone, every call of `writeBlock` that returns leaves
  -- that byte alone.
  pub write_block-outside :
      (s : S) (req : Request) (now : ℕ)
      → Leaves (λ r. r.0.memory a ≡ c.memory a) (write_block next c s req now)
  unfolding write_block touch_file
  write_block-outside s req now =
      elim (Bool-cases (not (req.reserved_map c.self == 0) || not c.terminating)) [
        | inl e ↦ elim (Bool-cases (req.originating.address == c.self)) [
          | inl m ↦
              rw (e, m, write_block)
                (Leaves-bind _ (release_block (touch_file c req.file_idx) req) _
                  (λ d k. ap (λ m. m a) (released-outside (touch_file c req.file_idx) d req k)))
          | inr m ↦
              rw (e, m, write_block) (forward_write-outside _ s req _ (stored-outside req now))
        ]
        | inr e ↦ rw (e, write_block) (forward_write-outside c s req _ refl)
      ]
