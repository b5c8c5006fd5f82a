-- ===== src/Register/Agree.antt =====
-- Indices and names: the register is an injective numbering of the names that it has been given.
use tazer.Base.{
  ℕ, ◌+◌, ◌*◌, ◌≤◌, ◌<◌, ◌≡◌, ◌↔◌, true, false, ◌==◌, List, [], ◌∷◌, length, All, update,
  update_self, update-ne, memcpy, memcpy-in, memcpy-out, arith, refl, sym, ◌∙◌, ap, inl, inr,
  dec_lt, ==_ne, lt→ltb,
}
use tazer.Register.Table.{
  num_entries, max_file_name, c_str, Register, is_name, find_first, register_file,
  get_file_register_index,
}
use tazer.Register.Names.{IsName, is_name_same, is_name-c_str}
use tazer.Register.Search.{IsStored, AbsentIn, find_first_finds, find_last_finds}

-- The register holds the names `name i`, each once, and each fits its row.
pub record IsRegister (r : Register) (name : ℕ → List ℕ) : Type 0 where
  pub stored : IsStored r name
  pub short : (i : ℕ) → i < r.available → length (name i) < max_file_name
  pub apart : (i j : ℕ) → i < r.available → j < r.available → name i ≡ name j → i ≡ j

-- A name without zeros that fits a row.
abbrev pub IsFileName : List ℕ → Type 0
IsFileName s = IsName s × (length s < max_file_name)

-- `index` is the number of `s`.
abbrev pub IsIndex : Register → (ℕ → List ℕ) → List ℕ → ℕ → Type 0
IsIndex r name s index = (i : ℕ) × (i < r.available) × (name i ≡ s) × (index ≡ i + 1)

-- The search agrees with the numbering: on a name that has an index, and on one that has none.
pub get-IsIndex :
    (r : Register) (name : ℕ → List ℕ) (s : List ℕ) (index : ℕ)
    → IsRegister r name
    → IsIndex r name s index
    → get_file_register_index r s ≡ index
unfolding get_file_register_index
get-IsIndex r name s index h (i, lt, e, f) =
    elim (find_last_finds r name h.stored s 0 r.available 0 (omega arith)) [
      | inl (j, a, b, g, k) ↦
          let same : i ≡ j = h.apart i j lt (omega arith) (e ∙ sym g) in omega (arith, k, f, same)
      | inr (z, none_of) ↦ absurd (none_of i (omega arith) (omega arith) e)
    ]

-- The row that a new name gets, with the other rows as they were.
module _ (r : Register) (name : ℕ → List ℕ) (s : List ℕ) (h : IsRegister r name)
    (f : IsFileName s) where
  abbrev grown : Register
  grown = record {
    available = r.available + 1;
    file_name = memcpy r.file_name (r.available * max_file_name) (c_str s) 0 (length s + 1);
  }

  abbrev names : ℕ → List ℕ
  names = update name r.available s

  name_at : (i : ℕ) → i < r.available → names i ≡ name i
  name_at i lt = update-ne name r.available s i (λ e. omega arith)

  last_at : (i : ℕ) → i ≡ r.available → names i ≡ s
  last_at i e = rw (e, update_self name r.available s) refl

  new_row : is_name s grown.file_name (r.available * max_file_name) ≡ true
  new_row =
      is_name_same s _ (c_str s) (r.available * max_file_name) 0 (λ k le.
        memcpy-in r.file_name (r.available * max_file_name) (c_str s) 0 (length s + 1) k
          (omega arith))
      ∙ is_name-c_str s f.0

  old_row : (i : ℕ) → i < r.available → is_name (name i) grown.file_name (i * max_file_name) ≡ true
  old_row i lt =
      is_name_same (name i) _ r.file_name (i * max_file_name) (i * max_file_name) (λ k le.
        let fits = h.short i lt in
        memcpy-out r.file_name (r.available * max_file_name) (c_str s) 0 (length s + 1) _
          (λ (a, b). omega (arith, fits)))
      ∙ h.stored i lt

  grown-IsRegister : AbsentIn name s 0 r.available → IsRegister grown names
  grown-IsRegister absent = record {
    stored = λ i lt. elim (dec_lt i r.available) [
      | yes p ↦ rw (name_at i p) (old_row i p)
      | no p ↦
          let e : i ≡ r.available = omega arith in rw (e, update_self name r.available s) new_row
    ];
    short = λ i lt. elim (dec_lt i r.available) [
      | yes p ↦ rw (name_at i p) (h.short i p)
      | no p ↦ let e : i ≡ r.available = omega arith in rw (e, update_self name r.available s) f.1
    ];
    apart = λ i j lt lt' e. elim (dec_lt i r.available) [
      | yes p ↦ elim (dec_lt j r.available) [
        | yes q ↦ h.apart i j p q (sym (name_at i p) ∙ e ∙ name_at j q)
        | no q ↦
            absurd (
              absent i (omega arith) (omega arith)
                (sym (name_at i p) ∙ e ∙ last_at j (omega arith)))
      ]
      | no p ↦ elim (dec_lt j r.available) [
        | yes q ↦ absurd (
            absent j (omega arith) (omega arith)
              (sym (name_at j q) ∙ sym e ∙ last_at i (omega arith)))
        | no q ↦ omega arith
      ]
    ];
  }

-- The numbering after `r` extends that of `r`, and numbers `s` with `index`.
abbrev pub Extends : Register → (ℕ → List ℕ) → Register → (ℕ → List ℕ) → Type 0
Extends r name r' name' =
    IsRegister r' name'
    × (r.available ≤ r'.available)
    × ((i : ℕ) → i < r.available → name' i ≡ name i)

register_file-Extends :
    (r : Register) (name : ℕ → List ℕ) (s : List ℕ)
    → IsRegister r name
    → IsFileName s
    → r.available < num_entries
    → (name' : ℕ → List ℕ) × Extends r name (register_file r s).0 name'
      × IsIndex (register_file r s).0 name' s (register_file r s).1
      × ((register_file r s).0.available ≤ r.available + 1)
unfolding register_file
register_file-Extends r name s h f room =
    elim (find_first_finds r name h.stored s 0 r.available (omega arith)) [
      | inl (j, a, b, g, k) ↦
          let found : (find_first r s 0 r.available == 0) ≡ false =
            ==_ne _ 0 (λ z. omega (arith, k, z)) in
          rw (found) (name, (h, omega arith, λ i lt. refl), (j, omega arith, g, k), omega arith)
      | inr (z, absent) ↦
          rw (z, lt→ltb r.available num_entries room)
            (
              names r name s h f,
              (
                grown-IsRegister r name s h f absent,
                omega arith,
                λ i lt. name_at r name s h f i lt,
              ),
              (r.available, omega arith, last_at r name s h f r.available refl, refl),
              omega arith,
            )
    ]

-- A sequence of registrations.
unfoldable pub register_all : Register → List (List ℕ) → Register
register_all r [] = r
register_all r (s ∷ ss) = register_all (register_file r s).0 ss

register_all-Extends :
    (r : Register) (name : ℕ → List ℕ) (ss : List (List ℕ))
    → IsRegister r name
    → All IsFileName ss
    → r.available + length ss ≤ num_entries
    → (name' : ℕ → List ℕ) × Extends r name (register_all r ss) name'
      × ((register_all r ss).available ≤ r.available + length ss)
unfolding register_all
register_all-Extends r name [] h f room = (name, (h, omega arith, λ i lt. refl), omega arith)
register_all-Extends r name (s ∷ ss) h f room =
    let (name1, one, num, up) = register_file-Extends r name s h f.0 (omega arith) in
    let (name2, all, most) =
      register_all-Extends (register_file r s).0 name1 ss one.0 f.1 (omega arith) in
    (
      name2,
      (all.0, omega (arith, one.1, all.1), λ i lt. all.2 i (omega (arith, one.1)) ∙ one.2 i lt),
      omega (arith, up, most),
    )

-- An index stays that of its name.
IsIndex-later :
    (r r' : Register) (name name' : ℕ → List ℕ) (s : List ℕ) (index : ℕ)
    → Extends r name r' name'
    → IsIndex r name s index
    → IsIndex r' name' s index
IsIndex-later r r' name name' s index (h, le, same) (i, lt, e, f) =
    (i, omega arith, same i lt ∙ e, f)

-- On a register that holds each of its names once: a file that registerFile numbers, any
-- registrations after it and then one more, with room for all of them, where the names have no zero
-- byte and fit their rows. The two indices are equal exactly if the names are, neither is 0, and
-- getFileRegisterIndex answers each name with its index.
pub register_file-IsIndex :
    (r : Register) (name : ℕ → List ℕ) (s t : List ℕ) (between : List (List ℕ))
    → IsRegister r name
    → IsFileName s
    → IsFileName t
    → All IsFileName between
    → r.available + length between + 2 ≤ num_entries
    → (let first : Register × ℕ = register_file r s in
        let last : Register × ℕ = register_file (register_all first.0 between) t in
        ((first.1 ≡ last.1) ↔ (s ≡ t))
        × (0 < first.1)
        × (0 < last.1)
        × (get_file_register_index last.0 s ≡ first.1)
        × (get_file_register_index last.0 t ≡ last.1))
register_file-IsIndex r name s t between h f g fs room =
    let (name1, one, num, up) = register_file-Extends r name s h f (omega arith) in
    let (name2, all, most) =
      register_all-Extends (register_file r s).0 name1 between one.0 fs (omega arith) in
    let (name3, end, num', up') =
      register_file-Extends (register_all (register_file r s).0 between) name2 t all.0 g
        (omega arith) in
    let r1 = (register_file r s).0 in
    let r2 = register_all r1 between in
    let r3 = (register_file r2 t).0 in
    let index = (register_file r s).1 in
    let kept : IsIndex r3 name3 s index =
      IsIndex-later r2 r3 name2 name3 s index end
        (IsIndex-later r1 r2 name1 name2 s index all num) in
    let at_s = get-IsIndex r3 name3 s index end.0 kept in
    let at_t = get-IsIndex r3 name3 t (register_file r2 t).1 end.0 num' in
    (
      (
        λ e.
            let same : kept.0 ≡ num'.0 = omega (arith, e, kept.3, num'.3) in
            sym kept.2 ∙ ap name3 same ∙ num'.2,
        λ e. sym at_s ∙ ap (get_file_register_index r3) e ∙ at_t,
      ),
      omega (arith, kept.3),
      omega (arith, num'.3),
      at_s,
      at_t,
    )
