-- ===== src/Bounded/Scan/Best.antt =====
-- What the loop of `oldestBlock` knows: of a slot it stops at, and of the victims it collects.
use tazer.Base.{
  ℕ, suc, zero, ◌+◌, ◌≤◌, ◌<◌, ◌≡◌, Bool, true, false, ◌⊎◌, inl, inr, arith, Bool-cases, subst,
  dec_lt,
}
use tazer.Bounded.Types.{BlockEntry}
use tazer.Bounded.Table.{is_avail, is_empty, same_blk, any_users}
use tazer.Bounded.Scan.{Victims, slot, scan_bin}

abbrev pub Table : Type 0
Table = ℕ → BlockEntry

-- An entry that the loop passes over: it is occupied by another block.
abbrev pub IsOther : Table → ℕ → ℕ → ℕ → Type 0
IsOther table index file j =
    (same_blk (table j) index file ≡ false) × (is_empty (table j).status ≡ false)

-- An entry that may be evicted.
abbrev pub IsIdle : Table → ℕ → Type 0
IsIdle table j = (is_avail (table j).status ≡ true) × (any_users (table j) ≡ false)

pub record IsSlot (table : Table) (index file first count p : ℕ) : Type 0 where
  pub lower : first ≤ p
  pub upper : p < first + count
  pub fits : (same_blk (table p) index file ≡ true) ⊎ (is_empty (table p).status ≡ true)
  pub before : (j : ℕ) → first ≤ j → j < p → IsOther table index file j

IsOther-extend :
    (table : Table) (index file first : ℕ)
    → IsOther table index file first
    → (j : ℕ) → first ≤ j
    → (suc first ≤ j → IsOther table index file j)
    → IsOther table index file j
IsOther-extend table index file first h j le rest = elim (dec_lt first j) [
  | yes lt ↦ rest lt
  | no ge ↦ let e : first ≡ j = omega arith in subst (λ k. IsOther table index file k) e h
]

IsSlot-here :
    (table : Table) (index file n first : ℕ)
    → (same_blk (table first) index file ≡ true) ⊎ (is_empty (table first).status ≡ true)
    → IsSlot table index file first (suc n) first
IsSlot-here table index file n first h = record {
  lower = omega arith;
  upper = omega arith;
  fits = h;
  before = λ j lo hi. absurd (omega arith);
}

IsSlot-later :
    (table : Table) (index file n first p : ℕ)
    → IsOther table index file first
    → IsSlot table index file (suc first) n p
    → IsSlot table index file first (suc n) p
IsSlot-later table index file n first p h r = record {
  lower = omega (arith, r.lower);
  upper = omega (arith, r.upper);
  fits = r.fits;
  before = λ j lo hi. IsOther-extend table index file first h j lo (λ lt. r.before j lt hi);
}

slot-injective : {p q : ℕ} → slot p ≡ slot q → p ≡ q
slot-injective e = cc

pub scan_bin-IsSlot :
    (prefetch_evict : Bool) (table : Table) (index file n first : ℕ) (v : Victims) (p : ℕ)
    → scan_bin prefetch_evict table index file n first v ≡ slot p
    → IsSlot table index file first n p
unfolding scan_bin
scan_bin-IsSlot pe table index file zero first v p e = absurd (cc)
scan_bin-IsSlot pe table index file (suc n) first v p e =
    elim (Bool-cases (same_blk (table first) index file)) [
      | inl s ↦
          subst (λ k. IsSlot table index file first (suc n) k) (slot-injective (rw s at e))
            (IsSlot-here table index file n first (inl s))
      | inr s ↦ elim (Bool-cases (is_empty (table first).status)) [
        | inl m ↦
            subst (λ k. IsSlot table index file first (suc n) k) (slot-injective (rw (s, m) at e))
              (IsSlot-here table index file n first (inr m))
        | inr m ↦
            IsSlot-later table index file n first p (s, m)
              (scan_bin-IsSlot pe table index file n (suc first) _ p (rw (s, m) at e))
      ]
    ]
