-- ===== src/Register/Table.antt =====
-- The table of `FileCacheRegister` and its two searches, each under the register's lock.
-- `_fileName` is one array of bytes, whose row `i` starts at `i * MAXFILENAME`; a name is its bytes
-- without the zero that ends it.
use tazer.Base.{
  ℕ, zero, suc, ◌+◌, ◌*◌, Bool, not, ◌&&◌, if◌then◌else◌, ◌==◌, ltb, List, [], ◌∷◌, length, memcpy,
}

-- `NUMENTRIES`.
abbrev pub num_entries : ℕ
num_entries = 10000

-- `MAXFILENAME`.
abbrev pub max_file_name : ℕ
max_file_name = 1024

-- `_available` and `_fileName`.
pub record Register : Type 0 where
  pub available : ℕ
  pub file_name : ℕ → ℕ

-- The bytes of a name as an array, zero at its end and behind it.
abbrev pub c_str : List ℕ → ℕ → ℕ
c_str [] i = 0
c_str (x ∷ s) zero = x
c_str (x ∷ s) (suc i) = c_str s i

-- `!name.compare(p)` for the string that starts at `p`.
unfoldable pub is_name : List ℕ → (ℕ → ℕ) → ℕ → Bool
is_name [] m p = m p == 0
is_name (x ∷ s) m p = m p == x && (not (x == 0) && is_name s m (p + 1))

-- The constructor, on memory that holds arbitrary bytes: each row starts with a zero.
unfoldable pub new_register : (ℕ → ℕ) → Register
new_register m = record { available = 0; file_name = clear num_entries }
  where
    clear : ℕ → ℕ → ℕ
    clear zero i = m i
    clear (suc n) i = if i == n * max_file_name then 0 else clear n i

-- The loop of `registerFile` from row `i` on with `n` rows left, which stops at the first match.
unfoldable pub find_first : Register → List ℕ → ℕ → ℕ → ℕ
find_first r s i zero = 0
find_first r s i (suc n) =
    let rest = find_first r s (i + 1) n in
    if is_name s r.file_name (i * max_file_name) then i + 1 else rest

-- The loop of `getFileRegisterIndex`, which goes on to the last row.
unfoldable pub find_last : Register → List ℕ → ℕ → ℕ → ℕ → ℕ
find_last r s i zero index = index
find_last r s i (suc n) index =
    find_last r s (i + 1) n (if is_name s r.file_name (i * max_file_name) then i + 1 else index)

-- `registerFile`: the register and the index, which counts from 1; 0 says that the table is full.
unfoldable pub register_file : Register → List ℕ → Register × ℕ
register_file r s =
    let index = find_first r s 0 r.available in
    if index == 0
    then (if ltb r.available num_entries
        then (
          record {
            available = r.available + 1;
            file_name = memcpy r.file_name (r.available * max_file_name) (c_str s) 0 (length s + 1);
          },
          r.available + 1,
        )
        else (record { available = r.available + 1; file_name = r.file_name }, 0))
    else (r, index)

-- `getFileRegisterIndex`.
unfoldable pub get_file_register_index : Register → List ℕ → ℕ
get_file_register_index r s = find_last r s 0 r.available 0
