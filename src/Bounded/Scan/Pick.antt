-- ===== src/Bounded/Scan/Pick.antt =====
-- What `oldestBlock` returns: a slot with the block or an empty one, or an idle victim.
use tazer.Base.{
  ℕ, ◌+◌, ◌≤◌, ◌<◌, ◌≡◌, Bool, true, false, Option, none, some, arith, refl, subst, ◌⊎◌, inl, inr,
  sym, ◌∙◌, update, ap,
}
use tazer.Bounded.Types.{Cache, blk_evict}
use tazer.Bounded.Table.{is_evict, get_bin_index, bin_start}
use tazer.Bounded.Scan.{
  Victims, Scan, slot, victims, max_time, no_victims, choose, take_victim, end_scan, scan_bin,
  oldest_block,
}
use tazer.Bounded.Scan.Best.{IsOther, IsIdle, IsSlot, scan_bin-IsSlot}
use tazer.Bounded.Scan.Victim.{IsBest-init, Known, scan_bin-IsBest}

-- The first table index of the bin of a block.
abbrev pub home : Cache → ℕ → ℕ → ℕ
home c index file = bin_start c (get_bin_index c index file)

-- What an eviction leaves alone.
pub record Same (c d : Cache) : Type 0 where
  pub shape : d.shape ≡ c.shape
  pub files : d.file_map ≡ c.file_map
  pub bytes : d.memory ≡ c.memory

pub data Picked (c : Cache) (index file : ℕ) (d : Cache) (p : ℕ) : Type 0 where
  kept :
      d ≡ c
      → IsSlot c.blk_index index file (home c index file) c.associativity p
      → Picked c index file d p
  evicted :
      home c index file ≤ p
      → p < home c index file + c.associativity
      → IsIdle c.blk_index p
      → ((j : ℕ)
          → home c index file ≤ j
          → j < home c index file + c.associativity
          → IsOther c.blk_index index file j)
      → d.blk_index ≡ update c.blk_index p (record (c.blk_index p) { status = blk_evict })
      → Same c d
      → Picked c index file d p

abbrev scan_of : Cache → ℕ → ℕ → Scan
scan_of c index file =
    scan_bin c.prefetch_evict c.blk_index index file c.associativity (home c index file) no_victims

-- A scan with the equation that defines it.
Scan-cases : (s : Scan) → ((p : ℕ) × (s ≡ slot p)) ⊎ ((w : Victims) × (s ≡ victims w))
Scan-cases (slot p) = inl (p, refl)
Scan-cases (victims w) = inr (w, refl)

scan_of-Known :
    (c : Cache) (index file : ℕ) (w : Victims)
    → scan_of c index file ≡ victims w
    → Known c.prefetch_evict c.blk_index index file
        (home c index file)
        (home c index file + c.associativity)
        w
scan_of-Known c index file w e =
    scan_bin-IsBest c.prefetch_evict c.blk_index index file c.associativity (home c index file)
      (home c index file) _ no_victims w refl (omega arith)
      (IsBest-init c.prefetch_evict c.blk_index (home c index file))
      (λ j lo hi. absurd (omega arith)) e

-- The victim is one of the two candidates, and its time is known.
choose-cases :
    (pe : Bool) (v : Victims) (p : ℕ) (flag : Bool)
    → choose pe v ≡ some (p, flag)
    → ((flag ≡ false) × (v.min_entry ≡ some p))
      ⊎ ((flag ≡ true) × (pe ≡ true) × (v.min_prefetch_entry ≡ some p))
unfolding choose
choose-cases true v p flag e = ground arith
choose-cases false v p flag e = ground arith

pair_some-injective :
    {c d : Cache} {p q : ℕ} → ◌≡◌ {A = Cache × Option ℕ} (c, some p) (d, some q) → (c ≡ d) × (p ≡ q)
pair_some-injective e = (ap (λ r. r.0) e, cc (ap (λ r. r.1) e))

pub record IsTaken (c d : Cache) (o : Option (ℕ × Bool)) (p : ℕ) : Type 0 where
  pub flag : Bool
  pub chosen : o ≡ some (p, flag)
  pub table : d.blk_index ≡ update c.blk_index p (record (c.blk_index p) { status = blk_evict })
  pub rest : Same c d

IsTaken-move :
    {c d e : Cache} {o : Option (ℕ × Bool)} {p q : ℕ}
    → (d ≡ e) × (p ≡ q)
    → IsTaken c d o p
    → IsTaken c e o q
IsTaken-move {c} {d} {e} {o} {p} {q} h t =
    subst (λ k. IsTaken c k o q) h.0 (subst (λ k. IsTaken c d o k) h.1 t)

take_victim-IsTaken :
    (c d : Cache) (o : Option (ℕ × Bool)) (p : ℕ) → take_victim c o ≡ (d, some p) → IsTaken c d o p
unfolding take_victim
take_victim-IsTaken c d none p e = absurd (cc (ap (λ r. r.1) e))
take_victim-IsTaken c d (some (q, true)) p e = IsTaken-move (pair_some-injective e) (record {
  flag = true;
  chosen = refl;
  table = refl;
  rest = record { shape = refl; files = refl; bytes = refl };
})
take_victim-IsTaken c d (some (q, false)) p e = IsTaken-move (pair_some-injective e) (record {
  flag = false;
  chosen = refl;
  table = refl;
  rest = record { shape = refl; files = refl; bytes = refl };
})

module _ (c : Cache) (index file : ℕ) (d : Cache) (p : ℕ) where
  Picked-slot :
      (q : ℕ)
      → scan_of c index file ≡ slot q
      → end_scan c (slot q) ≡ (d, some p)
      → Picked c index file d p
  unfolding end_scan
  Picked-slot q s e = kept (sym (pair_some-injective e).0) (
      subst (IsSlot c.blk_index index file (home c index file) c.associativity)
        (pair_some-injective e).1 (scan_bin-IsSlot _ _ _ _ _ _ _ q s))

  -- The chosen victim is idle and lies in the bin.
  choose-IsIdle :
      (w : Victims) (flag : Bool)
      → scan_of c index file ≡ victims w
      → choose c.prefetch_evict w ≡ some (p, flag)
      → (home c index file ≤ p) × (p < home c index file + c.associativity) × IsIdle c.blk_index p
  choose-IsIdle w flag s e = elim (choose-cases c.prefetch_evict w p flag e) [
    | inl h ↦ let f = (scan_of-Known c index file w s).0.ordinary.found p h.1 in (f.0, f.1, f.2)
    | inr h ↦
        let f = ((scan_of-Known c index file w s).0.prefetch h.1).found p h.2 in (f.0, f.1, f.2)
  ]

  Picked-victim :
      (w : Victims)
      → scan_of c index file ≡ victims w
      → end_scan c (victims w) ≡ (d, some p)
      → Picked c index file d p
  unfolding end_scan
  Picked-victim w s e = evicted i.0 i.1 i.2 (scan_of-Known c index file w s).1 t.table t.rest
    where
      t : IsTaken c d (choose c.prefetch_evict w) p
      t = take_victim-IsTaken c d _ p e

      i : (home c index file ≤ p) × (p < home c index file + c.associativity) × IsIdle c.blk_index p
      i = choose-IsIdle w t.flag s t.chosen

  pub oldest_block-Picked : oldest_block c index file ≡ (d, some p) → Picked c index file d p
  unfolding oldest_block
  oldest_block-Picked e = elim (Scan-cases (scan_of c index file)) [
    | inl (q, s) ↦ Picked-slot q s (rw s at e)
    | inr (w, s) ↦ Picked-victim w s (rw s at e)
  ]

-- With the ordinary policy, the victim has the smallest time stamp of the idle entries of the bin.
victim-least :
    (c : Cache) (index file : ℕ) (w : Victims) (p : ℕ) (flag : Bool)
    → c.prefetch_evict ≡ false
    → scan_of c index file ≡ victims w
    → choose c.prefetch_evict w ≡ some (p, flag)
    → (j : ℕ) → home c index file ≤ j
    → j < home c index file + c.associativity
    → IsIdle c.blk_index j
    → (c.blk_index p).time_stamp ≤ (c.blk_index j).time_stamp
victim-least c index file w p flag off s e j lo hi idle =
    elim (choose-cases c.prefetch_evict w p flag e) [
      | inl h ↦
          let k = (scan_of-Known c index file w s).0.ordinary in
          let f = (k.found p h.1).4 in omega (arith, f, k.least j lo hi idle refl)
      | inr h ↦ absurd (cc (sym off ∙ h.1))
    ]

choose-none :
    (pe : Bool) (v : Victims) → choose pe v ≡ none → (v.min_entry ≡ none) ⊎ (v.min_time ≡ max_time)
unfolding choose
choose-none true v e = ground arith
choose-none false v e = ground arith

take_victim-none :
    (c d : Cache) (o : Option (ℕ × Bool)) → take_victim c o ≡ (d, none) → (o ≡ none) × (c ≡ d)
unfolding take_victim
take_victim-none c d none e = (refl, ap (λ r. r.0) e)
take_victim-none c d (some (q, true)) e = absurd (cc (ap (λ r. r.1) e))
take_victim-none c d (some (q, false)) e = absurd (cc (ap (λ r. r.1) e))

-- A bin in which every entry holds another block, and every idle one has the largest time.
pub record IsFull (c : Cache) (index file : ℕ) : Type 0 where
  pub others :
      (j : ℕ)
      → home c index file ≤ j
      → j < home c index file + c.associativity
      → IsOther c.blk_index index file j
  pub busy :
      (j : ℕ)
      → home c index file ≤ j
      → j < home c index file + c.associativity
      → IsIdle c.blk_index j
      → max_time ≤ (c.blk_index j).time_stamp

module _ (c : Cache) (index file : ℕ) (d : Cache) where
  IsFull-victims :
      (w : Victims)
      → scan_of c index file ≡ victims w
      → choose c.prefetch_evict w ≡ none
      → IsFull c index file
  IsFull-victims w s e = record {
    others = k.1;
    busy = λ j lo hi idle.
        subst (λ t. t ≤ (c.blk_index j).time_stamp) unset (k.0.ordinary.least j lo hi idle refl);
  }
    where
      k :
          Known c.prefetch_evict c.blk_index index file
            (home c index file)
            (home c index file + c.associativity)
            w
      k = scan_of-Known c index file w s

      unset : w.min_time ≡ max_time
      unset = elim (choose-none c.prefetch_evict w e) [ inl h ↦ k.0.ordinary.unset h | inr h ↦ h ]

  pub oldest_block-none : oldest_block c index file ≡ (d, none) → (c ≡ d) × IsFull c index file
  unfolding oldest_block end_scan
  oldest_block-none e = elim (Scan-cases (scan_of c index file)) [
    | inl (q, s) ↦ absurd (
        let x : ◌≡◌ {A = Cache × Option ℕ} (c, some q) (d, none) = rw s at e in
        cc (ap (λ r. r.1) x))
    | inr (w, s) ↦
        let t = take_victim-none c d (choose c.prefetch_evict w) (rw s at e) in
        (t.1, IsFull-victims w s t.0)
  ]

  -- Where prefetched blocks are not preferred, an entry that `oldestBlock` returns newly marked for
  -- eviction has a time stamp that is no larger than that of any idle entry of the block's bin.
  pub evicted-least :
      (p : ℕ)
      → c.prefetch_evict ≡ false
      → oldest_block c index file ≡ (d, some p)
      → is_evict (c.blk_index p).status ≡ false
      → is_evict (d.blk_index p).status ≡ true
      → (j : ℕ) → home c index file ≤ j
      → j < home c index file + c.associativity
      → IsIdle c.blk_index j
      → (c.blk_index p).time_stamp ≤ (c.blk_index j).time_stamp
  unfolding oldest_block end_scan
  evicted-least p off e before after j lo hi idle = elim (Scan-cases (scan_of c index file)) [
    | inl (q, s) ↦ absurd (
        cc (
          sym before
          ∙ subst (λ k. is_evict (k.blk_index p).status ≡ true)
              (sym
                (pair_some-injective
                  (let x : ◌≡◌ {A = Cache × Option ℕ} (c, some q) (d, some p) = rw s at e in x)).0)
              after))
    | inr (w, s) ↦
        let t = take_victim-IsTaken c d (choose c.prefetch_evict w) p (rw s at e) in
        victim-least c index file w p t.flag off s t.chosen j lo hi idle
  ]
