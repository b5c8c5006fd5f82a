-- ===== src/Bounded/Scan/Victim.antt =====
-- The victims that the loop of `oldestBlock` collects are the least recently used idle entries.
use tazer.Base.{
  ℕ, suc, zero, ◌+◌, ◌≤◌, ◌<◌, ◌≡◌, Bool, true, false, ◌&&◌, not, Option, none, some, arith, ltb,
  ◌==◌, if◌then◌else◌, Bool-cases, subst, dec_lt, inl, inr,
}
use mathlib.Core.Bool.{false≢true}
use tazer.Base.{sym, ◌∙◌}
use tazer.Bounded.Table.{is_avail, is_empty, same_blk, any_users}
use tazer.Bounded.Scan.{
  Victims, slot, victims, max_time, no_victims, consider, consider_time, consider_prefetched,
  scan_bin,
}
use tazer.Bounded.Scan.Best.{Table, IsOther, IsIdle}

-- `time` and `entry` are the minimum over the idle entries of a range that pass a filter.
pub record IsLeast (table : Table) (filter : ℕ → Bool) (first stop time : ℕ) (entry : Option ℕ)
    : Type 0 where
  pub found :
      (p : ℕ)
      → entry ≡ some p
      → (first ≤ p)
        × (p < stop)
        × IsIdle table p
        × (filter p ≡ true)
        × ((table p).time_stamp ≡ time)
  pub least :
      (j : ℕ)
      → first ≤ j
      → j < stop
      → IsIdle table j
      → filter j ≡ true
      → time ≤ (table j).time_stamp
  pub unset : entry ≡ none → time ≡ max_time

abbrev pub any_entry : ℕ → Bool
any_entry _ = true

abbrev pub is_prefetched : Table → ℕ → Bool
is_prefetched table j = not ((table j).prefetched == 0)

IsLeast-init :
    (table : Table) (filter : ℕ → Bool) (first : ℕ) → IsLeast table filter first first max_time none
IsLeast-init table filter first = record {
  found = λ p e. absurd (cc);
  least = λ j lo hi _ _. absurd (omega arith);
  unset = λ _. omega arith;
}

module _ (table : Table) (filter : ℕ → Bool) (first stop time : ℕ) (entry : Option ℕ) where
  IsLeast-keep :
      IsLeast table filter first stop time entry
      → (IsIdle table stop → filter stop ≡ true → time ≤ (table stop).time_stamp)
      → IsLeast table filter first (suc stop) time entry
  IsLeast-keep v h = record {
    found = λ p e. let f = v.found p e in (f.0, omega (arith, f.1), f.2, f.3, f.4);
    least = λ j lo hi idle ok. elim (dec_lt j stop) [
      | yes lt ↦ v.least j lo lt idle ok
      | no ge ↦
          let e : stop ≡ j = omega arith in
          subst (λ k. IsIdle table k → filter k ≡ true → time ≤ (table k).time_stamp) e h idle ok
    ];
    unset = v.unset;
  }

  IsLeast-take :
      first ≤ stop
      → IsLeast table filter first stop time entry
      → IsIdle table stop
      → filter stop ≡ true
      → (table stop).time_stamp < time
      → IsLeast table filter first (suc stop) (table stop).time_stamp (some stop)
  IsLeast-take le v idle ok lt = record {
    found = λ p e. ground (arith, idle, ok);
    least = λ j lo hi jdle jok. elim (dec_lt j stop) [
      | yes below ↦ omega (arith, v.least j lo below jdle jok)
      | no ge ↦
          let e : stop ≡ j = omega arith in
          subst (λ k. (table stop).time_stamp ≤ (table k).time_stamp) e (omega arith)
    ];
    unset = λ e. absurd (cc);
  }

-- Both minima, over the entries from `first` to `stop`; the second counts under the policy only.
pub record IsBest (pe : Bool) (table : Table) (first stop : ℕ) (v : Victims) : Type 0 where
  pub ordinary : IsLeast table any_entry first stop v.min_time v.min_entry
  pub prefetch :
      pe ≡ true
      → IsLeast table (is_prefetched table) first stop v.min_prefetch_time v.min_prefetch_entry

pub IsBest-init : (pe : Bool) (table : Table) (first : ℕ) → IsBest pe table first first no_victims
IsBest-init pe table first = record {
  ordinary = IsLeast-init table any_entry first;
  prefetch = λ _. IsLeast-init table (is_prefetched table) first;
}

IsBest-skip :
    (pe : Bool) (table : Table) (first stop : ℕ) (v : Victims)
    → is_avail (table stop).status ≡ false
    → IsBest pe table first stop v
    → IsBest pe table first (suc stop) v
IsBest-skip pe table first stop v h b = record {
  ordinary =
      IsLeast-keep table _ first stop _ _ b.ordinary
        (λ idle _. absurd (false≢true (sym h ∙ idle.0)));
  prefetch = λ on.
      IsLeast-keep table _ first stop _ _ (b.prefetch on)
        (λ idle _. absurd (false≢true (sym h ∙ idle.0)));
}

module _ (pe : Bool) (table : Table) (first stop : ℕ) (v : Victims) where
  -- After the ordinary test of the entry at `stop`.
  IsLeast-time :
      first ≤ stop
      → is_avail (table stop).status ≡ true
      → IsLeast table any_entry first stop v.min_time v.min_entry
      → let w = consider_time stop (table stop) v in
        IsLeast table any_entry first (suc stop) w.min_time w.min_entry
  unfolding consider_time
  IsLeast-time le h b = elim (Bool-cases test) [
    | inl e ↦ rw e (
        IsLeast-take table any_entry first stop v.min_time v.min_entry le b (ground arith)
          (ground arith) (ground arith))
    | inr e ↦
        rw e (
          IsLeast-keep table any_entry first stop v.min_time v.min_entry b (λ idle _. ground arith))
  ]
    where
      test : Bool
      test = ltb (table stop).time_stamp v.min_time && not (any_users (table stop))

  -- After the test of the entry at `stop` as a prefetched one.
  IsLeast-prefetched :
      pe ≡ true
      → first ≤ stop
      → is_avail (table stop).status ≡ true
      → IsLeast table (is_prefetched table) first stop v.min_prefetch_time v.min_prefetch_entry
      → let w = consider_prefetched pe stop (table stop) v in
        IsLeast table
          (is_prefetched table)
          first
          (suc stop)
          w.min_prefetch_time
          w.min_prefetch_entry
  unfolding consider_prefetched
  IsLeast-prefetched on le h b = elim (Bool-cases test) [
    | inl e ↦ rw e (
        IsLeast-take table (is_prefetched table) first stop v.min_prefetch_time v.min_prefetch_entry
          le b (ground arith) (ground arith) (ground arith))
    | inr e ↦ rw e (
        IsLeast-keep table (is_prefetched table) first stop v.min_prefetch_time v.min_prefetch_entry
          b (λ idle ok. ground arith))
  ]
    where
      test : Bool
      test =
          (pe
            && not ((table stop).prefetched == 0)
            && ltb (table stop).time_stamp v.min_prefetch_time)
          && not (any_users (table stop))

  consider_time-prefetch :
      ((consider_time stop (table stop) v).min_prefetch_time ≡ v.min_prefetch_time)
      × ((consider_time stop (table stop) v).min_prefetch_entry ≡ v.min_prefetch_entry)
  unfolding consider_time
  consider_time-prefetch = ground arith

  consider_prefetched-time :
      ((consider_prefetched pe stop (table stop) v).min_time ≡ v.min_time)
      × ((consider_prefetched pe stop (table stop) v).min_entry ≡ v.min_entry)
  unfolding consider_prefetched
  consider_prefetched-time = ground arith

IsBest-consider :
    (pe : Bool) (table : Table) (first stop : ℕ) (v : Victims)
    → first ≤ stop
    → is_avail (table stop).status ≡ true
    → IsBest pe table first stop v
    → IsBest pe table first (suc stop) (consider pe stop (table stop) v)
unfolding consider
IsBest-consider pe table first stop v le h b = record {
  ordinary = rw (o.0, o.1) (IsLeast-time pe table first stop v le h b.ordinary);
  prefetch = λ on. IsLeast-prefetched pe table first stop w on le h (rw (f.0, f.1) (b.prefetch on));
}
  where
    w : Victims
    w = consider_time stop (table stop) v

    o :
        ((consider_prefetched pe stop (table stop) w).min_time ≡ w.min_time)
        × ((consider_prefetched pe stop (table stop) w).min_entry ≡ w.min_entry)
    o = consider_prefetched-time pe table first stop w

    f : (w.min_prefetch_time ≡ v.min_prefetch_time) × (w.min_prefetch_entry ≡ v.min_prefetch_entry)
    f = consider_time-prefetch pe table first stop v

IsBest-next :
    (pe : Bool) (table : Table) (first stop : ℕ) (v : Victims)
    → first ≤ stop
    → IsBest pe table first stop v
    → IsBest pe table first
        (suc stop)
        (if is_avail (table stop).status then consider pe stop (table stop) v else v)
IsBest-next pe table first stop v le b = elim (Bool-cases (is_avail (table stop).status)) [
  | inl h ↦ rw h (IsBest-consider pe table first stop v le h b)
  | inr h ↦ rw h (IsBest-skip pe table first stop v h b)
]

IsOther-next :
    (table : Table) (index file first stop : ℕ)
    → ((j : ℕ) → first ≤ j → j < stop → IsOther table index file j)
    → IsOther table index file stop
    → (j : ℕ) → first ≤ j
    → j < suc stop
    → IsOther table index file j
IsOther-next table index file first stop o h j lo hi = elim (dec_lt j stop) [
  | yes lt ↦ o j lo lt
  | no ge ↦ let e : stop ≡ j = omega arith in subst (λ k. IsOther table index file k) e h
]

victims-injective : {v w : Victims} → victims v ≡ victims w → v ≡ w
victims-injective e = cc

-- What the loop knows when it has passed over the entries from `first` to `stop`.
abbrev pub Known : Bool → Table → ℕ → ℕ → ℕ → ℕ → Victims → Type 0
Known pe table index file first stop w =
    IsBest pe table first stop w × ((j : ℕ) → first ≤ j → j < stop → IsOther table index file j)

-- The loop that passes over every entry has seen only other blocks, and has the best victims.
pub scan_bin-IsBest :
    (pe : Bool) (table : Table) (index file n first ptr stop : ℕ) (v w : Victims)
    → ptr + n ≡ stop
    → first ≤ ptr
    → IsBest pe table first ptr v
    → ((j : ℕ) → first ≤ j → j < ptr → IsOther table index file j)
    → scan_bin pe table index file n ptr v ≡ victims w
    → Known pe table index file first stop w
unfolding scan_bin
scan_bin-IsBest pe table index file zero first ptr stop v w len le b o e =
    subst (λ k. Known pe table index file first k w) (let s : ptr ≡ stop = omega arith in s)
      (subst (Known pe table index file first ptr) (victims-injective e) (b, o))
scan_bin-IsBest pe table index file (suc n) first ptr stop v w len le b o e =
    elim (Bool-cases (same_blk (table ptr) index file)) [
      | inl s ↦ absurd (let x : slot ptr ≡ victims w = rw s at e in cc x)
      | inr s ↦ elim (Bool-cases (is_empty (table ptr).status)) [
        | inl m ↦ absurd (let x : slot ptr ≡ victims w = rw (s, m) at e in cc x)
        | inr m ↦
            scan_bin-IsBest pe table index file n first (suc ptr) stop _ w (omega arith)
              (omega arith) (IsBest-next pe table first ptr v le b)
              (IsOther-next table index file first ptr o (s, m)) (rw (s, m) at e)
      ]
    ]
