-- ===== src/Track/Tests.antt =====
-- A table with one object of two users, on which the theorems of this component are applied.
use tazer.Base.{ℕ, ◌+◌, ◌-◌, ◌≡◌, ◌≢◌, Bool, false, ◌==◌, update, Option, none, some, arith, refl}
use tazer.Track.Table.{Table, add_trackable, remove_trackable, lookup_trackable}
use tazer.Track.Counts.{nobody, Tracks, IsFresh}
use tazer.Track.Users.{add_trackable-Tracks, remove_trackable-Tracks}

abbrev empty_table : Table
empty_table = record { active = λ _. none; users = λ _. 0; deleted = λ _. false }

abbrev no_users : ℕ → ℕ
no_users _ = 0

empty-Tracks : Tracks empty_table no_users
empty-Tracks = record { each = λ k. nobody refl refl; apart = λ k k' p e e'. absurd (cc e) }

forty-IsFresh : IsFresh empty_table 40
forty-IsFresh = record { unused = refl; live = refl; nowhere = λ k e. cc e }

add_trackable-Tracks_example :
    (let r : Table × Option ℕ × Bool = add_trackable empty_table 3 (some 40) in
      Tracks r.0 (update no_users 3 (no_users 3 + 1))
      × (lookup_trackable r.0 3 ≡ r.1)
      × (r.1 ≢ none)
      × (r.2 ≡ (no_users 3 == 0)))
add_trackable-Tracks_example =
    add_trackable-Tracks empty_table no_users 3 40 empty-Tracks forty-IsFresh (omega arith)

abbrev one_table : Table
one_table = (add_trackable empty_table 3 (some 40)).0

abbrev one_user : ℕ → ℕ
one_user = update no_users 3 1

one-Tracks : Tracks one_table one_user
one-Tracks =
    (add_trackable-Tracks empty_table no_users 3 40 empty-Tracks forty-IsFresh (omega arith)).0

remove_trackable-Tracks_example :
    (let r : Table × Bool = remove_trackable one_table 3 1 in
      Tracks r.0 (update one_user 3 (one_user 3 - 1)) × (r.1 ≡ (one_user 3 == 1)))
remove_trackable-Tracks_example =
    remove_trackable-Tracks one_table one_user 3 one-Tracks (omega arith) (omega arith)
