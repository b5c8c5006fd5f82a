-- ===== src/Message/Bytes.antt =====
-- A message buffer is an array of bytes. Numbers are stored little-endian, as the packed structs of
-- inc/tazer/Message.h are on the machines that Tazer runs on.
use tazer.Base.{
  ℕ, zero, suc, ◌+◌, ◌*◌, ◌/◌, ◌%◌, ◌^◌, ◌≤◌, ◌<◌, ◌≡◌, ◌≢◌, List, [], ◌∷◌, arith, update, refl,
  length, ◌==◌, if◌then◌else◌, All, ◌⊎◌, inl, ap, ◌∙◌, ==_ne, ==_refl,
}

abbrev pub Buffer : Type 0
Buffer = ℕ → ℕ

unfoldable pub put8 : Buffer → ℕ → ℕ → Buffer
put8 b o v = update b o (v % 256)

unfoldable pub put32 : Buffer → ℕ → ℕ → Buffer
put32 b o v =
    update
      (update (update (update b o (v % 256)) (o + 1) (v / 256 % 256)) (o + 2) (v / 65536 % 256))
      (o + 3) (v / 16777216 % 256)

unfoldable pub put64 : Buffer → ℕ → ℕ → Buffer
put64 b o v = put32 (put32 b o (v % 2 ^ 32)) (o + 4) (v / 2 ^ 32)

unfoldable pub get32 : Buffer → ℕ → ℕ
get32 b o = b o + 256 * b (o + 1) + 65536 * b (o + 2) + 16777216 * b (o + 3)

unfoldable pub get64 : Buffer → ℕ → ℕ
get64 b o = get32 b o + 2 ^ 32 * get32 b (o + 4)

-- `memcpy` and `std::string::copy` from a list of bytes.
unfoldable pub put_bytes : Buffer → ℕ → List ℕ → Buffer
put_bytes b o [] = b
put_bytes b o (x ∷ xs) = put_bytes (update b o x) (suc o) xs

-- `n` bytes from an offset on.
unfoldable pub get_bytes : Buffer → ℕ → ℕ → List ℕ
get_bytes b o zero = []
get_bytes b o (suc n) = b o ∷ get_bytes b (suc o) n

-- `std::string(const char *)`: the bytes up to the first zero, within the bytes that there are.
unfoldable pub c_string : ℕ → Buffer → ℕ → List ℕ
c_string zero b o = []
c_string (suc n) b o = if b o == 0 then [] else b o ∷ c_string n b (suc o)

-- A name with its terminating zero.
unfoldable pub put_name : Buffer → ℕ → List ℕ → Buffer
put_name b o name = update (put_bytes b o name) (o + length name) 0

-- Two buffers agree below an offset.
abbrev pub Below : Buffer → Buffer → ℕ → Type 0
Below b b' o = (j : ℕ) → j < o → b j ≡ b' j

pub put_bytes-Below : (b : Buffer) (o : ℕ) (xs : List ℕ) (j : ℕ) → j < o → put_bytes b o xs j ≡ b j
unfolding put_bytes
put_bytes-Below b o [] j h = refl
put_bytes-Below b o (x ∷ xs) j h =
    put_bytes-Below (update b o x) (suc o) xs j (omega arith) ∙ ground arith

pub put_name-Below : (b : Buffer) (o : ℕ) (xs : List ℕ) (j : ℕ) → j < o → put_name b o xs j ≡ b j
unfolding put_name
put_name-Below b o xs j h = ground (arith, put_bytes-Below b o xs j)

pub get32-put32 : (b : Buffer) (o v : ℕ) → v < 2 ^ 32 → get32 (put32 b o v) o ≡ v
unfolding get32 put32
get32-put32 b o v h = ground arith

pub get32-put32_apart :
    (b : Buffer) (o p v : ℕ) → (p + 4 ≤ o) ⊎ (o + 4 ≤ p) → get32 (put32 b o v) p ≡ get32 b p
unfolding get32 put32
get32-put32_apart b o p v h = ground arith

pub get64-put64 : (b : Buffer) (o v : ℕ) → v < 2 ^ 64 → get64 (put64 b o v) o ≡ v
unfolding get64 put64
get64-put64 b o v h = omega (
  arith,
  get32-put32_apart (put32 b o (v % 2 ^ 32)) (o + 4) o (v / 2 ^ 32) (inl (omega arith)),
  get32-put32 b o (v % 2 ^ 32) (omega arith),
  get32-put32 (put32 b o (v % 2 ^ 32)) (o + 4) (v / 2 ^ 32) (omega arith),
)

pub get32-Below : (b b' : Buffer) (o p : ℕ) → p + 4 ≤ o → Below b b' o → get32 b p ≡ get32 b' p
unfolding get32
get32-Below b b' o p le h = omega (arith, h p, h (p + 1), h (p + 2), h (p + 3))

pub get64-Below : (b b' : Buffer) (o p : ℕ) → p + 8 ≤ o → Below b b' o → get64 b p ≡ get64 b' p
unfolding get64
get64-Below b b' o p le h =
    omega (arith, get32-Below b b' o p (omega arith) h, get32-Below b b' o (p + 4) (omega arith) h)

put_name-cons :
    (b : Buffer) (o x : ℕ) (xs : List ℕ)
    → put_name b o (x ∷ xs) ≡ put_name (update b o x) (suc o) xs
unfolding put_name put_bytes
put_name-cons b o x xs =
    ap (λ k. update (put_bytes (update b o x) (suc o) xs) k 0)
      (let e : o + suc (length xs) ≡ suc o + length xs = omega arith in e)

c_string-next :
    (b : Buffer) (o n x : ℕ) → x ≢ 0 → b o ≡ x → c_string (suc n) b o ≡ x ∷ c_string n b (suc o)
unfolding c_string
c_string-next b o n x ne e = rw (e, ==_ne x 0 ne) refl

c_string-end : (b : Buffer) (o n : ℕ) → b o ≡ 0 → c_string (suc n) b o ≡ []
unfolding c_string
c_string-end b o n e = rw e refl

pub c_string-put_name :
    (b : Buffer) (o n : ℕ) (xs : List ℕ)
    → All (λ x. x ≢ 0) xs
    → length xs < n
    → c_string n (put_name b o xs) o ≡ xs
c_string-put_name b o zero xs h lt = absurd (omega arith)
c_string-put_name b o (suc n) [] h lt =
    c_string-end (put_name b o []) o n (unfold put_name put_bytes in ground arith)
c_string-put_name b o (suc n) (x ∷ xs) h lt = rw (put_name-cons b o x xs) (
    c_string-next (put_name (update b o x) (suc o) xs) o n x h.0
      (put_name-Below (update b o x) (suc o) xs o (omega arith) ∙ ground (arith, ==_refl o))
    ∙ ap (◌∷◌ x) (c_string-put_name (update b o x) (suc o) n xs h.1 (omega arith)))
