-- ===== src/Track/Table.antt =====
-- The table of `Trackable` and its operations, each under the table's writer lock (`LookupTrackable`
-- under its reader lock). Keys and objects are numbers: an object is the pointer to it.
use tazer.Base.{
  ℕ, ◌+◌, ◌-◌, ◌%◌, ◌^◌, Bool, true, false, if◌then◌else◌, ◌==◌, update, Option, none, some,
}

abbrev pub u32 : ℕ
u32 = 2 ^ 32

-- `_active`, the `_users` of each object, and the objects that were deleted.
pub record Table : Type 0 where
  pub active : ℕ → Option ℕ
  pub users : ℕ → ℕ
  pub deleted : ℕ → Bool

-- `ret->incUsers()`.
unfoldable pub inc_users : Table → ℕ → Table
inc_users t p = record {
  active = t.active;
  users = update t.users p ((t.users p + 1) % u32);
  deleted = t.deleted;
}

-- The branches of `AddTrackable` for a new key, with what `createNew` returns.
unfoldable pub create : Table → ℕ → Option ℕ → Table × Option ℕ × Bool
unfolding inc_users
create t k none = (t, none, false)
create t k (some p) = (
  inc_users (record { active = update t.active k (some p); users = t.users; deleted = t.deleted })
      p,
  some p,
  true,
)

-- `AddTrackable`: the table, the object, and whether it was created. `created_new` is what
-- `createNew` would return.
unfoldable pub add_trackable : Table → ℕ → Option ℕ → Table × Option ℕ × Bool
unfolding create inc_users
add_trackable t k created_new = found (t.active k)
  where
    found : Option ℕ → Table × Option ℕ × Bool
    found none = create t k created_new
    found (some p) = (inc_users t p, some p, false)

-- `decUsers`, and in `RemoveTrackable` the deletion that follows when it says so.
unfoldable pub dec_users : Table → ℕ → ℕ → ℕ → Table × Bool
dec_users t k p dec =
    let left = update t.users p ((t.users p + u32 - dec % u32) % u32) in
    if t.users p == 1
    then (
      record { active = update t.active k none; users = left; deleted = update t.deleted p true },
      true,
    )
    else (record { active = t.active; users = left; deleted = t.deleted }, false)

-- `RemoveTrackable`.
unfoldable pub remove_trackable : Table → ℕ → ℕ → Table × Bool
unfolding dec_users
remove_trackable t k dec = found (t.active k)
  where
    found : Option ℕ → Table × Bool
    found none = (t, false)
    found (some p) = dec_users t k p dec

-- `LookupTrackable`.
abbrev pub lookup_trackable : Table → ℕ → Option ℕ
lookup_trackable t k = t.active k
