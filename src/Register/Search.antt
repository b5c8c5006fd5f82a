-- ===== src/Register/Search.antt =====
-- What the two searches of the register find, for any rows that hold known names.
use tazer.Base.{
  ℕ, zero, suc, ◌+◌, ◌*◌, ◌≤◌, ◌<◌, ◌≡◌, ◌≢◌, ◌⊎◌, true, false, List, arith, refl, sym, ◌∙◌, ap,
  Bool-cases, inl, inr, dec_lt,
}
use tazer.Register.Table.{max_file_name, Register, is_name, find_first, find_last}
use tazer.Register.Names.{is_name_unique}

-- The rows before `available` hold the names `name`.
abbrev pub IsStored : Register → (ℕ → List ℕ) → Type 0
IsStored r name =
    (i : ℕ) → i < r.available → is_name (name i) r.file_name (i * max_file_name) ≡ true

-- Row `j` of those from `i` on, `n` of them, is the one found: the index counts from 1.
abbrev pub FoundIn : (ℕ → List ℕ) → List ℕ → ℕ → ℕ → ℕ → Type 0
FoundIn name s i n index = (j : ℕ) × (i ≤ j) × (j < i + n) × (name j ≡ s) × (index ≡ j + 1)

abbrev pub AbsentIn : (ℕ → List ℕ) → List ℕ → ℕ → ℕ → Type 0
AbsentIn name s i n = (j : ℕ) → i ≤ j → j < i + n → name j ≢ s

module _ (r : Register) (name : ℕ → List ℕ) (stored : IsStored r name) (s : List ℕ) where
  -- The comparison with a row decides whether its name is the one looked for.
  row :
      (i : ℕ)
      → i < r.available
      → ((is_name s r.file_name (i * max_file_name) ≡ true) × (name i ≡ s))
        ⊎ ((is_name s r.file_name (i * max_file_name) ≡ false) × (name i ≢ s))
  row i lt = elim (Bool-cases (is_name s r.file_name (i * max_file_name))) [
    | inl e ↦ inl (e, is_name_unique (name i) s r.file_name (i * max_file_name) (stored i lt) e)
    | inr e ↦ inr (e, λ f. absurd (clash f e))
  ]
    where
      clash : name i ≡ s → is_name s r.file_name (i * max_file_name) ≡ false → ⊥
      clash f e =
          let g : is_name (name i) r.file_name (i * max_file_name) ≡ true = stored i lt in
          cc (ap (λ z. is_name z r.file_name (i * max_file_name)) f, g, e)

  none_at : (i n : ℕ) → name i ≢ s → AbsentIn name s (i + 1) n → AbsentIn name s i (suc n)
  none_at i n d h j le lt e = elim (dec_lt i j) [
    | yes p ↦ h j (omega arith) (omega arith) e
    | no p ↦ d (let f : j ≡ i = omega arith in ap name (sym f) ∙ e)
  ]

  pub find_first_finds :
      (i n : ℕ)
      → i + n ≤ r.available
      → FoundIn name s i n (find_first r s i n) ⊎ ((find_first r s i n ≡ 0) × AbsentIn name s i n)
  unfolding find_first
  find_first_finds i zero le = inr (refl, λ j a b e. absurd (omega arith))
  find_first_finds i (suc n) le = elim (row i (omega arith)) [
    | inl (e, f) ↦ rw (e) (inl (i, omega arith, omega arith, f, refl))
    | inr (e, d) ↦ rw (e) (elim (find_first_finds (i + 1) n (omega arith)) [
      | inl (j, a, b, f, g) ↦ inl (j, omega arith, omega arith, f, g)
      | inr (z, h) ↦ inr (z, none_at i n d h)
    ])
  ]

  pub find_last_finds :
      (i n index : ℕ)
      → i + n ≤ r.available
      → FoundIn name s i n (find_last r s i n index)
        ⊎ ((find_last r s i n index ≡ index) × AbsentIn name s i n)
  unfolding find_last
  find_last_finds i zero index le = inr (refl, λ j a b e. absurd (omega arith))
  find_last_finds i (suc n) index le = elim (row i (omega arith)) [
    | inl (e, f) ↦ rw (e) (elim (find_last_finds (i + 1) n (i + 1) (omega arith)) [
      | inl (j, a, b, f, g) ↦ inl (j, omega arith, omega arith, f, g)
      | inr (z, h) ↦ inl (i, omega arith, omega arith, f, z)
    ])
    | inr (e, d) ↦ rw (e) (elim (find_last_finds (i + 1) n index (omega arith)) [
      | inl (j, a, b, f, g) ↦ inl (j, omega arith, omega arith, f, g)
      | inr (z, h) ↦ inr (z, none_at i n d h)
    ])
  ]
