-- ===== src/Bounded/Invariant/Release.antt =====
-- The other critical sections: `getBlock` with the release of a block, and the file table.
use tazer.Base.{
  ℕ, suc, zero, ◌+◌, ◌≤◌, ◌<◌, ◌≡◌, true, false, ◌&&◌, some, arith, ◌==◌, if◌then◌else◌, refl,
  subst, ◌∙◌, inl, inr, ◌⊎◌, Bool-cases, ap, ==_iff, update-ne, update_self, Option-cases, ==_refl,
}
use tazer.Bounded.Types.{Cache, BlockEntry, Request, ok, exits}
use tazer.Bounded.Table.{is_empty, is_avail, same_blk, set_blk, dec_blk_cnt}
use tazer.Bounded.Scan.{find_avail, get_block}
use tazer.Bounded.Scan.Pick.{home}
use tazer.Bounded.Ops.{release_block}
use tazer.Bounded.Invariant.Defs.{IsWellFormed}
use tazer.Bounded.Invariant.Write.{Holds, present-IsFree, Writes-IsWellFormed}
use tazer.Bounded.Invariant.Ops.{Keeps, Keeps-Writes, IsWritten}

-- The entry that `getBlock` finds is available and holds the block.
pub record IsFound (table : ℕ → BlockEntry) (index file first count p : ℕ) : Type 0 where
  pub lower : first ≤ p
  pub upper : p < first + count
  pub same : same_blk (table p) index file ≡ true
  pub avail : is_avail (table p).status ≡ true

find_avail-IsFound :
    (table : ℕ → BlockEntry) (index file n first p : ℕ)
    → find_avail table index file n first ≡ some p
    → IsFound table index file first n p
unfolding find_avail
find_avail-IsFound table index file zero first p e = absurd (cc)
find_avail-IsFound table index file (suc n) first p e =
    elim (Bool-cases (same_blk (table first) index file && is_avail (table first).status)) [
      | inl h ↦
          let k : first ≡ p = cc (rw h at e) in
          subst (IsFound table index file first (suc n)) k (record {
            lower = omega arith;
            upper = omega arith;
            same = ground arith;
            avail = ground arith;
          })
      | inr h ↦
          let r : IsFound table index file (suc first) n p =
            find_avail-IsFound table index file n (suc first) p (rw h at e) in
          record {
            lower = omega (arith, r.lower);
            upper = omega (arith, r.upper);
            same = r.same;
            avail = r.avail;
          }
    ]

pub get_block-IsFound :
    (c : Cache) (index file p : ℕ)
    → get_block c index file ≡ some p
    → IsFound c.blk_index index file (home c index file) c.associativity p
unfolding get_block
get_block-IsFound c index file p e = find_avail-IsFound c.blk_index index file c.associativity _ p e

-- An available entry with the block may be rewritten for it.
found-IsWellFormed :
    (c d : Cache) (index file p : ℕ)
    → IsWellFormed c
    → IsFound c.blk_index index file (home c index file) c.associativity p
    → Keeps c d p
    → IsWritten (d.blk_index p) index file
    → IsWellFormed d
found-IsWellFormed c d index file p wf f k w =
    Writes-IsWellFormed c d index file p (d.blk_index p) wf
      (present-IsFree c index file p wf (f.lower, f.upper) used holds) (Keeps-Writes c d p k)
      (record {
        number = k.id ∙ wf.numbered p;
        holds = w.holds;
        used = w.used;
        settled = w.settled;
        quiet = w.quiet;
        known = rw (← holds.1) (wf.known p used);
      })
  where
    used : is_empty (c.blk_index p).status ≡ false
    used = ground (arith, f.avail)

    holds : Holds (c.blk_index p) index file
    holds = ground (arith, f.same)

-- What a release that returns did: nothing without a reservation, and one user less with one.
pub release_block-cases :
    (c d : Cache) (req : Request)
    → release_block c req ≡ ok d
    → (p : ℕ) × (get_block c req.blk_idx req.file_idx ≡ some p)
      × (((req.reserved_map c.self ≡ 0) × (c ≡ d))
          ⊎ ((0 < (c.blk_index p).active_cnt) × (set_blk c p (dec_blk_cnt (c.blk_index p)) ≡ d)))
unfolding release_block
release_block-cases c d req h = elim (Option-cases (get_block c req.blk_idx req.file_idx)) [
  | inl e ↦ absurd (let x : exits ≡ ok d = rw (e, release_block) at h in cc x)
  | inr (p, e) ↦ (p, e, released c d req p (rw (e, release_block) at h))
]
  where
    released :
        (c d : Cache) (req : Request) (p : ℕ)
        → (if req.reserved_map c.self == 0
            then ok c
            else if (c.blk_index p).active_cnt == 0
            then exits
            else ok (set_blk c p (dec_blk_cnt (c.blk_index p))))
          ≡ ok d
        → ((req.reserved_map c.self ≡ 0) × (c ≡ d))
          ⊎ ((0 < (c.blk_index p).active_cnt) × (set_blk c p (dec_blk_cnt (c.blk_index p)) ≡ d))
    released c d req p h = elim (Bool-cases (req.reserved_map c.self == 0)) [
      | inl a ↦ inl ((==_iff _ _).0 a, cc (let x : ok c ≡ ok d = rw a at h in x))
      | inr a ↦ elim (Bool-cases ((c.blk_index p).active_cnt == 0)) [
        | inl b ↦ absurd (let x : exits ≡ ok d = rw (a, b) at h in cc x)
        | inr b ↦ inr (
          ground arith,
          cc (let x : ok (set_blk c p (dec_blk_cnt (c.blk_index p))) ≡ ok d = rw (a, b) at h in x),
        )
      ]
    ]

dec-Keeps : (c : Cache) (p : ℕ) → Keeps c (set_blk c p (dec_blk_cnt (c.blk_index p))) p
dec-Keeps c p = record {
  shape = refl;
  files = refl;
  id = ap (λ e. e.id) (update_self c.blk_index p _);
  table = λ j ne. update-ne c.blk_index p _ j ne;
}

dec-IsWritten :
    (c : Cache) (index file first count p : ℕ)
    → IsFound c.blk_index index file first count p
    → IsWritten ((set_blk c p (dec_blk_cnt (c.blk_index p))).blk_index p) index file
dec-IsWritten c index file first count p f = ground (arith, f.same, f.avail, ==_refl p)

pub release_block-IsWellFormed :
    (c d : Cache) (req : Request) → IsWellFormed c → release_block c req ≡ ok d → IsWellFormed d
release_block-IsWellFormed c d req wf h =
    let (p, e, k) = release_block-cases c d req h in
    let f = get_block-IsFound c req.blk_idx req.file_idx p e in
    elim k [
      | inl (_, s) ↦ subst IsWellFormed s wf
      | inr (_, s) ↦ subst IsWellFormed s (
          found-IsWellFormed c _ req.blk_idx req.file_idx p wf f (dec-Keeps c p)
            (dec-IsWritten c req.blk_idx req.file_idx _ _ p f))
    ]
