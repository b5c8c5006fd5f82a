-- ===== src/Track/Users.antt =====
-- `AddTrackable` and `RemoveTrackable` keep the table true to its users.
use mathlib.Core.Option.{none-ne-some}
use tazer.Base.{
  ℕ, ◌+◌, ◌-◌, ◌<◌, ◌≡◌, ◌≢◌, Bool, ◌==◌, ==_iff, ==_ne, update, update_self, Option, none, some,
  arith, sym,
}
use tazer.Track.Table.{
  u32, Table, inc_users, create, add_trackable, remove_trackable, lookup_trackable,
}
use tazer.Track.Counts.{
  Held, nobody, shared, Tracks, IsFresh, join-Tracks, create-Tracks, leave-Tracks,
}

-- `AddTrackable` with an object from `createNew` that is not in use always returns an object, under
-- which the key is then found; it takes the new object exactly if nobody held the key, and the key
-- has one user more: the counts of the objects are again those of the users, no held object is
-- deleted and no two keys share one.
pub add_trackable-Tracks :
    (t : Table) (held : ℕ → ℕ) (k p : ℕ)
    → Tracks t held
    → IsFresh t p
    → held k + 1 < u32
    → (let r : Table × Option ℕ × Bool = add_trackable t k (some p) in
        Tracks r.0 (update held k (held k + 1))
        × (lookup_trackable r.0 k ≡ r.1)
        × (r.1 ≢ none)
        × (r.2 ≡ (held k == 0)))
unfolding add_trackable create inc_users
add_trackable-Tracks t held k p h f few = go (h.each k)
  where
    go :
        Held t k (held k)
        → (let r : Table × Option ℕ × Bool = add_trackable t k (some p) in
            Tracks r.0 (update held k (held k + 1))
            × (lookup_trackable r.0 k ≡ r.1)
            × (r.1 ≢ none)
            × (r.2 ≡ (held k == 0)))
    go (nobody e z) =
        rw (e, add_trackable)
          (
            create-Tracks t held h k p e z f,
            update_self t.active k (some p),
            λ s. none-ne-some p (sym s),
            sym ((==_iff (held k) 0).1 z),
          )
    go (shared q e lt u d) =
        rw (e, add_trackable)
          (
            join-Tracks t held h k q e few u d,
            e,
            λ s. none-ne-some q (sym s),
            sym (==_ne (held k) 0 (omega (arith, lt))),
          )

-- `RemoveTrackable` by one of the users of a key takes the user off, and deletes the object and
-- frees the key, which it says by returning true, exactly if that was the last one: the counts of
-- the objects are again those of the users, no held object is deleted and no two keys share one.
pub remove_trackable-Tracks :
    (t : Table) (held : ℕ → ℕ) (k : ℕ)
    → Tracks t held
    → 0 < held k
    → held k < u32
    → (let r : Table × Bool = remove_trackable t k 1 in
        Tracks r.0 (update held k (held k - 1)) × (r.1 ≡ (held k == 1)))
unfolding remove_trackable
remove_trackable-Tracks t held k h some_held few = go (h.each k)
  where
    go :
        Held t k (held k)
        → (let r : Table × Bool = remove_trackable t k 1 in
            Tracks r.0 (update held k (held k - 1)) × (r.1 ≡ (held k == 1)))
    go (nobody e z) = absurd (omega (arith, z, some_held))
    go (shared q e lt u d) = rw (e, remove_trackable) (leave-Tracks t held h k q e lt few u d)
