-- ===== src/Register/Tests.antt =====
-- A new register that gets two names, on which the theorem of this component is applied.
use tazer.Base.{ℕ, ◌+◌, ◌<◌, ◌≤◌, ◌≡◌, ◌↔◌, List, [], ◌∷◌, arith, refl}
use tazer.Register.Table.{
  Register, new_register, register_file, get_file_register_index, find_first, is_name,
}
use tazer.Register.Agree.{IsRegister, IsFileName, register_all, register_file-IsIndex}

-- Memory whose bytes are all 7.
abbrev start : Register
start = new_register (λ i. 7)

abbrev no_names : ℕ → List ℕ
no_names i = []

abbrev name_a : List ℕ
name_a = 97 ∷ 47 ∷ []

abbrev name_b : List ℕ
name_b = 97 ∷ 48 ∷ []

start-IsRegister : IsRegister start no_names
unfolding new_register
start-IsRegister = record {
  stored = λ i lt. absurd (omega arith);
  short = λ i lt. absurd (omega arith);
  apart = λ i j lt lt' e. absurd (omega arith);
}

name_a-IsFileName : IsFileName name_a
name_a-IsFileName =
    ((λ e. absurd (omega (arith, e)), (λ e. absurd (omega (arith, e)), tt)), omega arith)

name_b-IsFileName : IsFileName name_b
name_b-IsFileName =
    ((λ e. absurd (omega (arith, e)), (λ e. absurd (omega (arith, e)), tt)), omega arith)

start_room : start.available + 1 + 2 ≤ 10000
unfolding new_register
start_room = omega arith

register_file-IsIndex_example :
    (let first : Register × ℕ = register_file start name_a in
      let last : Register × ℕ = register_file (register_all first.0 (name_b ∷ [])) name_b in
      ((first.1 ≡ last.1) ↔ (name_a ≡ name_b))
      × (0 < first.1)
      × (0 < last.1)
      × (get_file_register_index last.0 name_a ≡ first.1)
      × (get_file_register_index last.0 name_b ≡ last.1))
register_file-IsIndex_example =
    register_file-IsIndex start no_names name_a name_b (name_b ∷ []) start-IsRegister
      name_a-IsFileName name_b-IsFileName (name_b-IsFileName, tt) start_room

-- The third registration of two names gets the index of the second.
indices_run :
    (register_file (register_all (register_file start name_a).0 (name_b ∷ [])) name_b).1 ≡ 2
unfolding new_register register_file register_all find_first is_name
indices_run = refl
