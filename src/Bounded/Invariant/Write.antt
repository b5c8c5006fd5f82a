-- ===== src/Bounded/Invariant/Write.antt =====
-- A write of one entry that keeps the table well formed: at the place that the searches find.
use tazer.Base.{
  ℕ, ◌+◌, ◌*◌, ◌≤◌, ◌<◌, ◌≡◌, ◌≢◌, true, false, none, arith, dec_lt, ◌==◌, if◌then◌else◌, refl,
  subst, sym, ◌∙◌, inl, inr, ◌⊎◌, Bool-cases, ==_iff,
}
use tazer.Bounded.Types.{Cache, BlockEntry}
use tazer.Bounded.Table.{is_empty, is_evict, is_wr, same_blk, get_bin_index}
use tazer.Bounded.Scan.Best.{IsSlot}
use tazer.Bounded.Scan.Pick.{home, Picked, kept, evicted}
use tazer.Bounded.Invariant.Defs.{InBin, IsUsed, SameKey, IsWellFormed, InBin-unique}

-- The entry `p` may be given to the block: no other entry of its bin holds it, and those before
-- `p` are used.
pub record IsFree (c : Cache) (index file p : ℕ) : Type 0 where
  pub inside : InBin c (get_bin_index c index file) p
  pub others :
      (j : ℕ)
      → InBin c (get_bin_index c index file) j
      → j ≢ p
      → IsUsed c j
      → same_blk (c.blk_index j) index file ≡ false
  pub before : (j : ℕ) → InBin c (get_bin_index c index file) j → j < p → IsUsed c j

-- `d` is `c` with the entry `p` replaced.
pub record Writes (c d : Cache) (p : ℕ) (e : BlockEntry) : Type 0 where
  pub shape : d.shape ≡ c.shape
  pub files : d.file_map ≡ c.file_map
  pub table : (j : ℕ) → d.blk_index j ≡ (if p == j then e else c.blk_index j)

abbrev pub Holds : BlockEntry → ℕ → ℕ → Type 0
Holds e index file = (e.block_index ≡ index) × (e.file_index ≡ file)

same_blk-Holds :
    (e : BlockEntry) (index file : ℕ) → same_blk e index file ≡ true → Holds e index file
same_blk-Holds e index file h = ground arith

Holds-same_blk :
    (e : BlockEntry) (index file : ℕ) → Holds e index file → same_blk e index file ≡ true
Holds-same_blk e index file h = ground arith

-- An entry that holds the block may be given to it.
pub present-IsFree :
    (c : Cache) (index file p : ℕ)
    → IsWellFormed c
    → InBin c (get_bin_index c index file) p
    → IsUsed c p
    → Holds (c.blk_index p) index file
    → IsFree c index file p
present-IsFree c index file p wf inside used h = record {
  inside = inside;
  others = λ j jin ne jused. elim (Bool-cases (same_blk (c.blk_index j) index file)) [
    | inl s ↦
        let k : Holds (c.blk_index j) index file = same_blk-Holds (c.blk_index j) index file s in
        absurd (ne (wf.unique j p _ jin inside jused used (k.1 ∙ sym h.1, k.0 ∙ sym h.0)))
    | inr s ↦ s
  ];
  before = λ j jin lt. wf.packed j p _ jin inside (omega arith) used;
}

module _ (c : Cache) (index file p : ℕ) (wf : IsWellFormed c) where
  slot-IsFree :
      IsSlot c.blk_index index file (home c index file) c.associativity p → IsFree c index file p
  slot-IsFree s = elim (Bool-cases (is_empty (c.blk_index p).status)) [
    | inl free ↦ record {
      inside = inside;
      others = λ j jin ne used. elim (dec_lt j p) [
        | yes lt ↦ (s.before j jin.0 lt).0
        | no ge ↦ absurd (cc (sym free ∙ wf.packed p j _ inside jin (omega arith) used))
      ];
      before = λ j jin lt. (s.before j jin.0 lt).1;
    }
    | inr used ↦ elim s.fits [
      | inl same ↦
          present-IsFree c index file p wf inside used
            (same_blk-Holds (c.blk_index p) index file same)
      | inr free ↦ absurd (cc (sym free ∙ used))
    ]
  ]
    where
      inside : InBin c (get_bin_index c index file) p
      inside = (s.lower, s.upper)

  -- What `oldestBlock` returns may be given to the block.
  pub Picked-IsFree : {d : Cache} → Picked c index file d p → IsFree c index file p
  Picked-IsFree (kept e s) = slot-IsFree s
  Picked-IsFree (evicted lo hi idle others t same) = record {
    inside = (lo, hi);
    others = λ j jin ne used. (others j jin.0 jin.1).0;
    before = λ j jin lt. (others j jin.0 jin.1).1;
  }

-- `get_bin_index` reads the files and the shape only.
pub bin_index-eq :
    (c d : Cache) (index file : ℕ)
    → d.shape ≡ c.shape
    → d.file_map ≡ c.file_map
    → get_bin_index d index file ≡ get_bin_index c index file
unfolding get_bin_index
bin_index-eq c d index file s f = cc (s, f)

InBin-eq : (c d : Cache) (b p : ℕ) → d.shape ≡ c.shape → InBin d b p → InBin c b p
InBin-eq c d b p s h =
    subst (λ k. (b * k.associativity ≤ p) × (p < b * k.associativity + k.associativity)) s h

-- Each index holds the new entry or what it held before.
entry-cases :
    {c d : Cache} {p : ℕ} {e : BlockEntry}
    → Writes c d p e
    → (j : ℕ) → ((p ≡ j) × (d.blk_index j ≡ e)) ⊎ ((p ≢ j) × (d.blk_index j ≡ c.blk_index j))
entry-cases {c} {d} {p} {e} w j = elim (Bool-cases (p == j)) [
  | inl h ↦ inl ((==_iff p j).0 h, w.table j ∙ rw h refl)
  | inr h ↦ inr (λ k. cc (sym h ∙ (==_iff p j).1 k), w.table j ∙ rw h refl)
]

-- The new entry is settled and used, and holds a block of a registered file.
pub record IsEntry (c : Cache) (index file p : ℕ) (e : BlockEntry) : Type 0 where
  pub number : e.id ≡ p
  pub holds : Holds e index file
  pub used : is_empty e.status ≡ false
  pub settled : is_evict e.status ≡ false
  pub quiet : is_wr e.status ≡ false
  pub known : c.file_map file ≢ none

module _ (c d : Cache) (index file p : ℕ) (e : BlockEntry) (wf : IsWellFormed c)
    (free : IsFree c index file p) (w : Writes c d p e) (en : IsEntry c index file p e) where
  abbrev UsedEntry : BlockEntry → Type 0
  UsedEntry f = is_empty f.status ≡ false

  known-after : (j : ℕ) → IsUsed d j → d.file_map (d.blk_index j).file_index ≢ none
  known-after j used = elim (entry-cases w j) [
    | inl (_, h) ↦ rw (w.files, h, en.holds.1) en.known
    | inr (_, h) ↦ rw (w.files, h) (wf.known j (subst UsedEntry h used))
  ]

  placed-after :
      (j b : ℕ)
      → InBin d b j
      → IsUsed d j
      → get_bin_index d (d.blk_index j).block_index (d.blk_index j).file_index ≡ b
  placed-after j b jin used = elim (entry-cases w j) [
    | inl (k, h) ↦
        rw (bin_index-eq c d _ _ w.shape w.files, h, en.holds.0, en.holds.1)
          (InBin-unique c _ b p free.inside
            (subst (InBin c b) (sym k) (InBin-eq c d b j w.shape jin)))
    | inr (_, h) ↦
        rw (bin_index-eq c d _ _ w.shape w.files, h)
          (wf.placed j b (InBin-eq c d b j w.shape jin) (subst UsedEntry h used))
  ]

  -- An index of the bin of `p` lies in the bin of the block.
  to_home : (b j q : ℕ) → p ≡ q → InBin c b q → InBin c b j → InBin c (get_bin_index c index file) j
  to_home b j q k qin jin =
      subst (λ x. InBin c x j)
        (sym (InBin-unique c _ b p free.inside (subst (InBin c b) (sym k) qin))) jin

  packed-after : (j q b : ℕ) → InBin c b j → InBin c b q → j ≤ q → IsUsed d q → IsUsed d j
  packed-after j q b jin qin le used = elim (entry-cases w j) [
    | inl (_, h) ↦ subst UsedEntry (sym h) en.used
    | inr (ne, h) ↦ subst UsedEntry (sym h) (elim (entry-cases w q) [
      | inl (k, x) ↦ free.before j (to_home b j q k qin jin) (omega arith)
      | inr (_, g) ↦ wf.packed j q b jin qin le (subst UsedEntry g used)
    ])
  ]

  not_same :
      (b j q : ℕ)
      → p ≡ q
      → p ≢ j
      → InBin c b q
      → InBin c b j
      → IsUsed c j
      → ¬ Holds (c.blk_index j) index file
  not_same b j q k ne qin jin used h = cc (
      sym (free.others j (to_home b j q k qin jin) (λ x. ne (sym x)) used)
      ∙ Holds-same_blk (c.blk_index j) index file h)

  unique-after :
      (j q b : ℕ)
      → InBin c b j
      → InBin c b q
      → IsUsed d j
      → IsUsed d q
      → SameKey (d.blk_index j) (d.blk_index q)
      → j ≡ q
  unique-after j q b jin qin jused qused same = elim (entry-cases w j) [
    | inl (k, h) ↦ elim (entry-cases w q) [
      | inl (l, g) ↦ sym k ∙ l
      | inr (ne, g) ↦ absurd (
          not_same b q j k ne jin qin (subst UsedEntry g qused) (
            let s : SameKey e (c.blk_index q) = rw (h, g) at same in
            (sym s.1 ∙ en.holds.0, sym s.0 ∙ en.holds.1)))
    ]
    | inr (ne, h) ↦ elim (entry-cases w q) [
      | inl (l, g) ↦ absurd (
          not_same b j q l ne qin jin (subst UsedEntry h jused) (
            let s : SameKey (c.blk_index j) e = rw (h, g) at same in
            (s.1 ∙ en.holds.0, s.0 ∙ en.holds.1)))
      | inr (_, g) ↦
          wf.unique j q b jin qin (subst UsedEntry h jused) (subst UsedEntry g qused)
            (rw (h, g) at same)
    ]
  ]

  -- Writing the entry keeps the table well formed.
  pub Writes-IsWellFormed : IsWellFormed d
  Writes-IsWellFormed = record {
    numbered = λ j. elim (entry-cases w j) [
      | inl (k, h) ↦ rw h (en.number ∙ k)
      | inr (_, h) ↦ rw h (wf.numbered j)
    ];
    settled = λ j. elim (entry-cases w j) [
      | inl (_, h) ↦ rw h en.settled
      | inr (_, h) ↦ rw h (wf.settled j)
    ];
    quiet =
        λ j. elim (entry-cases w j) [ inl (_, h) ↦ rw h en.quiet | inr (_, h) ↦ rw h (wf.quiet j) ];
    known = known-after;
    placed = placed-after;
    packed = λ j q b jin qin.
        packed-after j q b (InBin-eq c d b j w.shape jin) (InBin-eq c d b q w.shape qin);
    unique = λ j q b jin qin.
        unique-after j q b (InBin-eq c d b j w.shape jin) (InBin-eq c d b q w.shape qin);
  }
