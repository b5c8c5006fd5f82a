-- ===== src/Bounded/Held.antt =====
-- A block with users stays where it is: no read or write of another request evicts it, gives its
-- entry away or overwrites its bytes, so the pointer that a hit handed out stays good.
use tazer.Base.{
  ℕ, ◌+◌, ◌≤◌, ◌<◌, ◌≡◌, ◌≢◌, Bool, true, false, Option, none, some, leb, ◌==◌, subst, sym, ◌∙◌,
  inl, inr, Bool-cases, ap, ==_iff, leb→le,
}
use tazer.Bounded.Types.{Cache, Request}
use tazer.Bounded.Table.{is_avail, get_block_data}
use tazer.Bounded.Scan.Pick.{Picked}
use tazer.Bounded.Ops.{
  fill_entry, store_block, lookup_block, lookup_entry, reserve_in, ReadStep, forward,
}
use tazer.Bounded.Invariant.Defs.{IsWellFormed}
use tazer.Bounded.Invariant.Write.{Holds}
use tazer.Bounded.Invariant.Ops.{
  Keeps, Keeps-trans, Picked-Keeps, fill_entry-Keeps, fill_entry-IsWritten, lookup_entry-Keeps,
  lookup_entry-IsWritten, Oldest, nothing, entry, oldest_block-Oldest,
}
use tazer.Bounded.Store.{Picked-memory}
use tazer.Bounded.Stays.{
  IsHeld, Stays, Stays-refl, held-kept, other-Stays, same-Stays, lookup_entry-memory,
  lookup_entry-users, fill_entry-users, fill_entry-bytes,
}

module _ (c : Cache) (req : Request) (q : ℕ) (wf : IsWellFormed c) (h : IsHeld c q) where
  lookup_Stays-same :
      (prefetch : Bool) (now : ℕ) {d : Cache}
      → Picked c req.blk_idx req.file_idx d q
      → Stays c (lookup_entry d (reserve_in c req) prefetch now q).0 q
  lookup_Stays-same prefetch now {d} picked =
      subst (λ k. Stays c (lookup_entry k (reserve_in c req) prefetch now q).0 q) (sym old.0)
        (same-Stays c _ req.blk_idx req.file_idx q h
          (lookup_entry-Keeps c (reserve_in c req) prefetch now q) old.1
          (lookup_entry-IsWritten c (reserve_in c req) prefetch now q (inl old.1)
            (wf.quiet q)).holds
          u.0 u.1 (lookup_entry-memory c (reserve_in c req) prefetch now q))
    where
      old : (d ≡ c) × Holds (c.blk_index q) req.blk_idx req.file_idx
      old = held-kept c d req.blk_idx req.file_idx q h picked

      u :
          (is_avail ((lookup_entry c (reserve_in c req) prefetch now q).0.blk_index q).status
            ≡ true)
          × ((c.blk_index q).active_cnt
              ≤ ((lookup_entry c (reserve_in c req) prefetch now q).0.blk_index q).active_cnt)
      u = lookup_entry-users c (reserve_in c req) prefetch now q h

  lookup_Stays-at :
      (prefetch : Bool) (now p : ℕ) {d : Cache}
      → Picked c req.blk_idx req.file_idx d p
      → Stays c (lookup_entry d (reserve_in c req) prefetch now p).0 q
  lookup_Stays-at prefetch now p {d} picked = elim (Bool-cases (p == q)) [
    | inr e ↦
        other-Stays c _ p q h keeps (λ x. cc (sym e ∙ (==_iff p q).1 x))
          (λ i lt. ap (λ m. m (get_block_data c q + i)) bytes)
    | inl e ↦
        subst
          (λ x.
            Picked c req.blk_idx req.file_idx d x
            → Stays c (lookup_entry d (reserve_in c req) prefetch now x).0 q)
          (sym ((==_iff p q).0 e)) (lookup_Stays-same prefetch now) picked
  ]
    where
      keeps : Keeps c (lookup_entry d (reserve_in c req) prefetch now p).0 p
      keeps =
          Keeps-trans c d _ p (Picked-Keeps c d _ _ p picked)
            (lookup_entry-Keeps d (reserve_in c req) prefetch now p)

      bytes : (lookup_entry d (reserve_in c req) prefetch now p).0.memory ≡ c.memory
      bytes =
          lookup_entry-memory d (reserve_in c req) prefetch now p ∙ Picked-memory c d _ _ p picked

  store_Stays-same :
      (now : ℕ) {d : Cache}
      → Picked c req.blk_idx req.file_idx d q
      → Stays c (fill_entry d req now q) q
  store_Stays-same now {d} picked =
      subst (λ k. Stays c (fill_entry k req now q) q) (sym old.0)
        (same-Stays c _ req.blk_idx req.file_idx q h (fill_entry-Keeps c req now q) old.1
          (fill_entry-IsWritten c req now q (inl old.1) (wf.quiet q)).holds u.0 u.1 u.2)
    where
      old : (d ≡ c) × Holds (c.blk_index q) req.blk_idx req.file_idx
      old = held-kept c d req.blk_idx req.file_idx q h picked

      u :
          (is_avail ((fill_entry c req now q).blk_index q).status ≡ true)
          × ((c.blk_index q).active_cnt ≤ ((fill_entry c req now q).blk_index q).active_cnt)
          × ((fill_entry c req now q).memory ≡ c.memory)
      u = fill_entry-users c req now q h

  store_bytes-at :
      (now p i : ℕ) {d : Cache}
      → Picked c req.blk_idx req.file_idx d p
      → req.size ≤ c.blk_size
      → p ≢ q
      → i < c.blk_size
      → (fill_entry d req now p).memory (get_block_data c q + i) ≡ c.memory (get_block_data c q + i)
  store_bytes-at now p i {d} picked fits ne lt =
      rw (← k.shape) (
        fill_entry-bytes d req now p q i (k.id ∙ wf.numbered p) ne (rw k.shape fits)
          (rw k.shape lt))
      ∙ ap (λ m. m (get_block_data c q + i)) (Picked-memory c d _ _ p picked)
    where
      k : Keeps c d p
      k = Picked-Keeps c d _ _ p picked

  store_Stays-at :
      (now p : ℕ) {d : Cache}
      → Picked c req.blk_idx req.file_idx d p
      → req.size ≤ c.blk_size
      → Stays c (fill_entry d req now p) q
  store_Stays-at now p {d} picked fits = elim (Bool-cases (p == q)) [
    | inr e ↦
        let ne : p ≢ q = λ x. cc (sym e ∙ (==_iff p q).1 x) in
        other-Stays c _ p q h
          (Keeps-trans c d _ p (Picked-Keeps c d _ _ p picked) (fill_entry-Keeps d req now p)) ne
          (λ i lt. store_bytes-at now p i picked fits ne lt)
    | inl e ↦
        subst (λ x. Picked c req.blk_idx req.file_idx d x → Stays c (fill_entry d req now x) q)
          (sym ((==_iff p q).0 e)) (store_Stays-same now) picked
  ]

  looked-Stays :
      (prefetch : Bool) (now : ℕ) {d : Cache} {o : Option ℕ}
      → Oldest c req.blk_idx req.file_idx d o
      → Stays c
          (let r : Cache × Request × ReadStep = elim o [
            | none ↦ (d, req, forward)
            | some p ↦ lookup_entry d (reserve_in c req) prefetch now p
          ] in
            r).0
          q
  looked-Stays prefetch now (nothing full) = Stays-refl c q h
  looked-Stays prefetch now (entry p picked) = lookup_Stays-at prefetch now p picked

  stored-Stays :
      (now : ℕ) {d : Cache} {o : Option ℕ}
      → req.size ≤ c.blk_size
      → Oldest c req.blk_idx req.file_idx d o
      → Stays c
          (let r : Cache × Bool = elim o [
            | none ↦ (d, false)
            | some p ↦ (fill_entry d req now p, true)
          ] in
            r).0
          q
  stored-Stays now fits (nothing full) = Stays-refl c q h
  stored-Stays now fits (entry p picked) = store_Stays-at now p picked fits

  -- In a well-formed cache, an available entry with users (fewer than the counter can hold, less
  -- one) comes through the critical section of any `readBlock`: available, for the same block, at
  -- the same address with the same bytes, and with as many users at least.
  pub lookup_block-Stays :
      (prefetch : Bool) (now : ℕ) → Stays c (lookup_block c req prefetch now).0 q
  unfolding lookup_block
  lookup_block-Stays prefetch now =
      looked-Stays prefetch now (oldest_block-Oldest c req.blk_idx req.file_idx)

  -- In a well-formed cache, an available entry with users (fewer than the counter can hold, less
  -- one) comes through the critical section of any `writeBlock` that stores another cache's data:
  -- available, for the same block, at the same address with the same bytes, and with as many users
  -- at least.
  pub store_block-Stays : (now : ℕ) → Stays c (store_block c req now).0 q
  unfolding store_block
  store_block-Stays now = elim (Bool-cases (leb req.size c.blk_size)) [
    | inl e ↦
        rw e (stored-Stays now (leb→le _ _ e) (oldest_block-Oldest c req.blk_idx req.file_idx))
    | inr e ↦ rw e (Stays-refl c q h)
  ]
