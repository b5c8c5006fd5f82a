-- ===== src/Register/Names.antt =====
-- What the comparison of a name with a row of the register decides.
use tazer.Base.{
  ℕ, suc, ◌+◌, ◌≤◌, ◌≡◌, ◌≢◌, Bool, true, false, not, ◌&&◌, List, [], ◌∷◌, length, ◌==◌, All, ap,
  arith, refl, sym, ◌∙◌, ==_iff, ==_ne,
}
use mathlib.Core.Path.{ap₂}
use tazer.Register.Table.{c_str, is_name}

-- A name has no zero byte.
abbrev pub IsName : List ℕ → Type 0
IsName = All (λ x. x ≢ 0)

and_left : (a b : Bool) → (a && b) ≡ true → a ≡ true
and_left true b e = refl
and_left false b e = absurd (cc e)

and_right : (a b : Bool) → (a && b) ≡ true → b ≡ true
and_right true b e = e
and_right false b e = absurd (cc e)

here : (m m' : ℕ → ℕ) (p p' : ℕ) → m (p + 0) ≡ m' (p' + 0) → m p ≡ m' p'
here m m' p p' h =
    let e : p ≡ p + 0 = omega arith in
    let e' : p' ≡ p' + 0 = omega arith in ap m e ∙ h ∙ sym (ap m' e')

next :
    (m m' : ℕ → ℕ) (p p' k : ℕ) → m (p + suc k) ≡ m' (p' + suc k) → m (p + 1 + k) ≡ m' (p' + 1 + k)
next m m' p p' k h =
    let e : p + 1 + k ≡ p + suc k = omega arith in
    let e' : p' + 1 + k ≡ p' + suc k = omega arith in rw (e, e') h

-- The comparison reads as many bytes as the name has, and the zero behind them.
pub is_name_same :
    (s : List ℕ) (m m' : ℕ → ℕ) (p p' : ℕ)
    → ((k : ℕ) → k ≤ length s → m (p + k) ≡ m' (p' + k))
    → is_name s m p ≡ is_name s m' p'
unfolding is_name
is_name_same [] m m' p p' h = rw (here m m' p p' (h 0 (omega arith))) refl
is_name_same (x ∷ s) m m' p p' h =
    rw
      (
        here m m' p p' (h 0 (omega arith)),
        is_name_same s m m' (p + 1) (p' + 1) λ k le. next m m' p p' k (h (suc k) (omega arith)),
      )
      refl

zero_row : (x b : ℕ) (rest : Bool) → (b == 0) ≡ true → (b == x && (not (x == 0) && rest)) ≡ true → ⊥
zero_row x b rest e f =
    let z : b ≡ 0 = (==_iff _ _).0 e in
    let y : b ≡ x = (==_iff _ _).0 (and_left _ _ f) in
    let g : not (x == 0) ≡ true = and_left _ _ (and_right (b == x) _ f) in ground (arith)

-- The name that stands at an address is the only one that compares equal.
pub is_name_unique :
    (s t : List ℕ) (m : ℕ → ℕ) (p : ℕ) → is_name s m p ≡ true → is_name t m p ≡ true → s ≡ t
unfolding is_name
is_name_unique [] [] m p e f = refl
is_name_unique [] (y ∷ t) m p e f = absurd (zero_row y (m p) _ e f)
is_name_unique (x ∷ s) [] m p e f = absurd (zero_row x (m p) _ f e)
is_name_unique (x ∷ s) (y ∷ t) m p e f =
    let a : m p ≡ x = (==_iff _ _).0 (and_left _ _ e) in
    let b : m p ≡ y = (==_iff _ _).0 (and_left _ _ f) in
    let rest : s ≡ t =
      is_name_unique s t m (p + 1) (and_right _ _ (and_right _ _ e))
        (and_right _ _ (and_right _ _ f)) in
    ap₂ ◌∷◌ (sym a ∙ b) rest

-- What memcpy of a name with its zero leaves is that name.
pub is_name-c_str : (s : List ℕ) → IsName s → is_name s (c_str s) 0 ≡ true
unfolding is_name
is_name-c_str [] h = refl
is_name-c_str (x ∷ s) h =
    let shift : is_name s (c_str (x ∷ s)) 1 ≡ true =
      is_name_same s _ (c_str s) 1 0 (λ k le. shifted k) ∙ is_name-c_str s h.1 in
    rw (shift, ==_ne x 0 h.0, (==_iff x x).1 refl) refl
  where
    shifted : (k : ℕ) → c_str (x ∷ s) (1 + k) ≡ c_str s (0 + k)
    shifted k =
        let e : 1 + k ≡ suc k = omega arith in let e' : 0 + k ≡ k = omega arith in rw (e, e') refl
