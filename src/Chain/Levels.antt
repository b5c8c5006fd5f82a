-- ===== src/Chain/Levels.antt =====
-- The chain from a level on: `addCacheLevel` and the searches of src/caches/Cache.cpp.
use mathlib.Core.Option
use tazer.Base.{
  ℕ, suc, ◌+◌, ◌-◌, ◌%◌, ◌^◌, ◌<◌, ◌≡◌, false, if◌then◌else◌, ◌==◌, ==_refl, ==_ne, ==_iff, List,
  [], ◌∷◌, length, All, Option, none, some, arith, refl, ap, ◌∙◌, sym,
}
use tazer.Bounded.Types.{CacheType}

abbrev pub u64 : ℕ
u64 = 2 ^ 64

-- A `Cache` in the chain: `_nextLevel` is the rest of the list, `last` is `_lastLevel`.
pub record Node : Type 0 where
  pub address : ℕ
  pub type : CacheType
  pub level : ℕ
  pub last : ℕ

abbrev pub set_last : ℕ → Node → Node
set_last p n = record { address = n.address; type = n.type; level = n.level; last = p }

-- `setLevel`.
abbrev pub set_level : ℕ → Node → Node
set_level l n = record { address = n.address; type = n.type; level = l; last = n.last }

-- `addCacheLevel`; a call on a level that is not there is none. The level that gets a new next one
-- loses the old.
unfoldable pub add_cache_level : List Node → Node → ℕ → Option (List Node)
add_cache_level [] cache level = none
add_cache_level (n ∷ ns) cache level =
    let rest = add_cache_level ns cache level in
    if n.level == (level + u64 - 1) % u64
    then some (set_last cache.address n ∷ set_level level cache ∷ [])
    else Option.map (◌∷◌ (set_last cache.address n)) rest

-- `getCacheAtLevel`.
unfoldable pub get_cache_at_level : List Node → ℕ → Option Node
get_cache_at_level [] level = none
get_cache_at_level (n ∷ ns) level =
    let rest = get_cache_at_level ns level in if level == n.level then some n else rest

-- The levels of a chain count up.
abbrev pub CountsFrom : ℕ → List Node → Type 0
CountsFrom k [] = Unit
CountsFrom k (n ∷ ns) = (n.level ≡ k) × CountsFrom (suc k) ns

-- All levels of a chain have the same last level.
abbrev pub EndsIn : ℕ → List Node → Type 0
EndsIn p ns = All (λ n. n.last ≡ p) ns

-- What `addCacheLevel` makes of a chain.
pub record Extended (from : ℕ) (ns : List Node) (cache : Node) (ns' : List Node) : Type 0 where
  pub counts : CountsFrom from ns'
  pub ends : EndsIn cache.address ns'
  pub longer : length ns' ≡ suc (length ns)
  pub found : get_cache_at_level ns' (from + length ns) ≡ some (set_level (from + length ns) cache)

extend :
    (n : Node) (ns : List Node) (from : ℕ) (cache : Node)
    → CountsFrom from (n ∷ ns)
    → cache.last ≡ cache.address
    → from + suc (length ns) < u64
    → (ns' : List Node) × (add_cache_level (n ∷ ns) cache (from + suc (length ns)) ≡ some ns')
      × Extended from (n ∷ ns) cache ns'
unfolding add_cache_level get_cache_at_level
extend n [] from cache h own small =
    let e : n.level ≡ (from + 1 + u64 - 1) % u64 = h.0 ∙ omega (arith, small) in
    let at : (from + 1 == n.level) ≡ false =
      ==_ne (from + 1) n.level (λ z. absurd (omega (arith, z, h.0))) in
    (
      set_last cache.address n ∷ set_level (from + 1) cache ∷ [],
      rw ((==_iff n.level ((from + 1 + u64 - 1) % u64)).1 e, add_cache_level) refl,
      record {
        counts = (h.0, (omega arith, tt));
        ends = (refl, (own, tt));
        longer = omega arith;
        found = rw (at, ==_refl (from + 1), get_cache_at_level) refl;
      },
    )
extend n (m ∷ ms) from cache h own small =
    let k : ℕ = from + suc (suc (length ms)) in
    let k' : k ≡ suc from + suc (length ms) = omega arith in
    let e : (n.level == (k + u64 - 1) % u64) ≡ false =
      ==_ne n.level ((k + u64 - 1) % u64) (λ z. absurd (omega (arith, z, h.0, small))) in
    let at : (k == n.level) ≡ false = ==_ne k n.level (λ z. absurd (omega (arith, z, h.0))) in
    let r = extend m ms (suc from) cache h.1 own (omega (arith, small)) in
    (
      set_last cache.address n ∷ r.0,
      rw (e, ap (add_cache_level (m ∷ ms) cache) k' ∙ r.1, add_cache_level) refl,
      record {
        counts = (h.0, r.2.counts);
        ends = (refl, r.2.ends);
        longer = omega (arith, r.2.longer);
        found =
            rw
              (
                at,
                ap (get_cache_at_level r.0) k'
                    ∙ r.2.found
                    ∙ ap (λ j. some (set_level j cache)) (sym k'),
                get_cache_at_level,
              )
              refl;
      },
    )

-- Adding a cache at the level behind the last one of a chain whose levels count up from 0 appends
-- it: the levels of the longer chain count up again, the search by level finds the cache at its own
-- level, and `_lastLevel` of every level is the cache. The cache starts as its own last level, and
-- there are fewer than 2^64 levels.
pub add_cache_level-Extended :
    (n : Node) (ns : List Node) (cache : Node)
    → CountsFrom 0 (n ∷ ns)
    → cache.last ≡ cache.address
    → suc (length ns) < u64
    → (ns' : List Node) × (add_cache_level (n ∷ ns) cache (suc (length ns)) ≡ some ns')
      × Extended 0 (n ∷ ns) cache ns'
add_cache_level-Extended n ns cache h own small =
    let e : 0 + suc (length ns) ≡ suc (length ns) = omega arith in
    let r = extend n ns 0 cache h own (omega (arith, small)) in
    (r.0, ap (add_cache_level (n ∷ ns) cache) (sym e) ∙ r.1, r.2)
