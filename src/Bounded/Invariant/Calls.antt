-- ===== src/Bounded/Invariant/Calls.antt =====
-- `readBlock`, `writeBlock` and `addFile` as a whole keep the block table well formed, whatever
-- the next level does.
use tazer.Base.{
  ℕ, ◌≡◌, ◌≢◌, Bool, not, ◌||◌, none, List, [], ◌∷◌, arith, leb, ◌==◌, refl, ◌∙◌, inl, inr,
  Bool-cases,
}
use tazer.Bounded.Types.{Shape, Cache, Request, Outcome, ok, exits, segv, ◌>>=◌}
use tazer.Bounded.Table.{touch_file, make_cache}
use tazer.Bounded.Ops.{
  ReadStep, hit, forward, wait, Level, Reads, lookup_block, release_block, forward_read,
  finish_read, read_block, forward_write, write_block, add_file, sized,
}
use tazer.Bounded.Invariant.Defs.{IsWellFormed}
use tazer.Bounded.Invariant.Ops.{lookup_block-IsWellFormed, store_block-IsWellFormed}
use tazer.Bounded.Invariant.Release.{release_block-IsWellFormed}
use tazer.Bounded.Invariant.Files.{
  Extends-IsWellFormed, touch_file-Extends, touch_file-known, register_file-Extends, bin_index-file,
  make_cache-IsWellFormed,
}

-- The memory is no part of the invariant.
pub memory-IsWellFormed :
    (c : Cache) (m : ℕ → ℕ) → IsWellFormed c → IsWellFormed (record c { memory = m })
memory-IsWellFormed c m wf = record {
  numbered = wf.numbered;
  settled = wf.settled;
  quiet = wf.quiet;
  known = wf.known;
  placed = λ p b h u. bin_index-file c _ _ _ refl refl ∙ wf.placed p b h u;
  packed = wf.packed;
  unique = wf.unique;
}

-- The state that a call leaves, if it returns.
abbrev pub Leaves {ℓ} : {A : Type ℓ} → (A → Type 0) → Outcome A → Type 0
Leaves P (ok a) = P a
Leaves P exits = Unit
Leaves P segv = Unit

pub Leaves-bind {ℓ κ} :
    {A : Type ℓ} {B : Type κ} (P : B → Type 0) (m : Outcome A) (f : A → Outcome B)
    → ((a : A) → m ≡ ok a → Leaves P (f a))
    → Leaves P (m >>= f)
Leaves-bind P (ok a) f h = h a refl
Leaves-bind P exits f h = tt
Leaves-bind P segv f h = tt

sized-file : (c : Cache) (req : Request) → (sized c req).file_idx ≡ req.file_idx
sized-file c req = ground arith

pub touched-IsWellFormed :
    (c : Cache) (file : ℕ) → IsWellFormed c → IsWellFormed (touch_file c file)
touched-IsWellFormed c file wf = Extends-IsWellFormed c _ wf (touch_file-Extends c file)

-- A call of another component.
pub data Call : Type 0 where
  call_read : Request → Reads → ℕ → ℕ → Call
  call_write : Request → ℕ → Call
  call_add : (List ℕ → ℕ) → ℕ → List ℕ → ℕ → ℕ → Call

module _ {S : Type 0} (next : Level S) where
  forward_read-IsWellFormed :
      (c : Cache) (s : S) (req : Request) (reads : Reads) (priority : ℕ)
      → IsWellFormed c
      → Leaves (λ r. IsWellFormed r.0) (forward_read next c s req reads priority)
  unfolding forward_read
  forward_read-IsWellFormed c s req reads priority wf =
      Leaves-bind _ (next.read_block s c.memory req reads priority) _
        (λ r _. memory-IsWellFormed c r.1 wf)

  finish_read-IsWellFormed :
      (s : S) (reads : Reads) (priority : ℕ) (r : Cache × Request × ReadStep)
      → IsWellFormed r.0
      → Leaves (λ q. IsWellFormed q.0) (finish_read next s reads priority r)
  unfolding finish_read
  finish_read-IsWellFormed s reads priority (c, req, hit) wf = wf
  finish_read-IsWellFormed s reads priority (c, req, forward) wf =
      forward_read-IsWellFormed c s req reads priority wf
  finish_read-IsWellFormed s reads priority (c, req, wait id) wf = wf

  -- Every call of `readBlock` that returns leaves a well-formed table.
  read_block-IsWellFormed :
      (c : Cache) (s : S) (req : Request) (reads : Reads) (priority now : ℕ)
      → IsWellFormed c
      → Leaves (λ r. IsWellFormed r.0) (read_block next c s req reads priority now)
  unfolding read_block
  read_block-IsWellFormed c s req reads priority now wf =
      elim (Bool-cases (leb r.size d.blk_size)) [
        | inl h ↦
            rw (h, read_block)
              (finish_read-IsWellFormed s reads priority
                (lookup_block d r (not (priority == 0)) now)
                (lookup_block-IsWellFormed d r (touched-IsWellFormed c req.file_idx wf) known _
                  now))
        | inr h ↦ rw (h, read_block) tt
      ]
    where
      d : Cache
      d = touch_file c req.file_idx

      r : Request
      r = sized d req

      known : d.file_map r.file_idx ≢ none
      known = rw (sized-file d req) (touch_file-known c req.file_idx)

  forward_write-IsWellFormed :
      (c : Cache) (s : S) (req : Request) (ret : Bool)
      → IsWellFormed c
      → Leaves (λ r. IsWellFormed r.0) (forward_write next c s req ret)
  unfolding forward_write
  forward_write-IsWellFormed c s req ret wf =
      Leaves-bind _ (next.write_block s c.memory req) _ (λ r _. memory-IsWellFormed c r.1 wf)

  -- Every call of `writeBlock` that returns leaves a well-formed table.
  pub write_block-IsWellFormed :
      (c : Cache) (s : S) (req : Request) (now : ℕ)
      → IsWellFormed c
      → Leaves (λ r. IsWellFormed r.0) (write_block next c s req now)
  unfolding write_block
  write_block-IsWellFormed c s req now wf =
      elim (Bool-cases (not (req.reserved_map c.self == 0) || not c.terminating)) [
        | inl h ↦ elim (Bool-cases (req.originating.address == c.self)) [
          | inl m ↦
              rw (h, m, write_block)
                (Leaves-bind _ (release_block d req) _ (λ e k.
                  release_block-IsWellFormed d e req (touched-IsWellFormed c req.file_idx wf) k))
          | inr m ↦
              rw (h, m, write_block)
                (forward_write-IsWellFormed _ s req _ (
                  store_block-IsWellFormed d req (touched-IsWellFormed c req.file_idx wf)
                    (touch_file-known c req.file_idx) now))
        ]
        | inr h ↦ rw (h, write_block) (forward_write-IsWellFormed c s req _ wf)
      ]
    where
      d : Cache
      d = touch_file c req.file_idx

  unfoldable pub step : Cache → S → Call → Outcome (Cache × S)
  step c s (call_read req pending priority now) = do
    r ← read_block next c s req pending priority now
    ok (r.0, r.1)
  step c s (call_write req now) = do r ← write_block next c s req now; ok (r.0, r.1)
  step c s (call_add xxh32 index name block_size file_size) =
      ok (add_file next xxh32 c s index name block_size file_size)

  -- A history of calls, which ends where one does not return.
  unfoldable pub run : List Call → Cache → S → Outcome (Cache × S)
  run [] c s = ok (c, s)
  run (call ∷ calls) c s = do r ← step c s call; run calls r.0 r.1

  Leaves-map {ℓ κ} :
      {A : Type ℓ} {B : Type κ} (P : A → Type 0) (Q : B → Type 0) (m : Outcome A)
      (f : A → Outcome B)
      → Leaves P m
      → ((a : A) → P a → Leaves Q (f a))
      → Leaves Q (m >>= f)
  Leaves-map P Q (ok a) f h k = k a h
  Leaves-map P Q exits f h k = tt
  Leaves-map P Q segv f h k = tt

  step-IsWellFormed :
      (c : Cache) (s : S) (call : Call)
      → IsWellFormed c
      → Leaves (λ r. IsWellFormed r.0) (step c s call)
  unfolding step add_file
  step-IsWellFormed c s (call_read req pending priority now) wf =
      Leaves-map (λ r. IsWellFormed r.0) _ (read_block next c s req pending priority now) _
        (read_block-IsWellFormed c s req pending priority now wf) (λ r h. h)
  step-IsWellFormed c s (call_write req now) wf =
      Leaves-map (λ r. IsWellFormed r.0) _ (write_block next c s req now) _
        (write_block-IsWellFormed c s req now wf) (λ r h. h)
  step-IsWellFormed c s (call_add xxh32 index name block_size file_size) wf =
      Extends-IsWellFormed c _ wf (register_file-Extends xxh32 c index name block_size file_size)

  run-IsWellFormed :
      (calls : List Call) (c : Cache) (s : S)
      → IsWellFormed c
      → Leaves (λ r. IsWellFormed r.0) (run calls c s)
  unfolding run
  run-IsWellFormed [] c s wf = wf
  run-IsWellFormed (call ∷ calls) c s wf =
      Leaves-map (λ r. IsWellFormed r.0) _ (step c s call) _ (step-IsWellFormed c s call wf)
        (λ r h. run-IsWellFormed calls r.0 r.1 h)

  -- From a cache that has just been made, every history of calls whose calls return leaves a block
  -- table in which no entry is left marked for eviction or as being written, each used entry lies in the bin of its
  -- block with its file registered, the used entries of a bin come first, and no block has two
  -- entries. The next level may do anything.
  pub history-IsWellFormed :
      (shape : Shape) (memory : ℕ → ℕ) (s : S) (calls : List Call)
      → Leaves (λ r. IsWellFormed r.0) (run calls (make_cache shape memory) s)
  history-IsWellFormed shape memory s calls =
      run-IsWellFormed calls _ s (make_cache-IsWellFormed shape memory)
