-- ===== src/Track/Counts.antt =====
-- A table against what its users see: how many of them hold each key.
use mathlib.Core.Option.{none-ne-some, some-injective}
use tazer.Base.{
  ℕ, ◌+◌, ◌-◌, ◌%◌, ◌<◌, ◌≡◌, ◌≢◌, true, false, ◌==◌, ==_iff, ==_ne, update, update_self, update-ne,
  none, some, arith, refl, sym, ◌∙◌, ap, Bool-cases, inl, inr, ◌⊎◌, subst,
}
use tazer.Track.Table.{u32, Table, inc_users, create, dec_users}

-- The key `k` is held by `n` users.
pub data Held (t : Table) (k n : ℕ) : Type 0 where
  nobody : t.active k ≡ none → n ≡ 0 → Held t k n
  shared : (p : ℕ) → t.active k ≡ some p → 0 < n → t.users p ≡ n → t.deleted p ≡ false → Held t k n

pub record Tracks (t : Table) (held : ℕ → ℕ) : Type 0 where
  pub each : (k : ℕ) → Held t k (held k)
  pub apart : (k k' p : ℕ) → t.active k ≡ some p → t.active k' ≡ some p → k ≡ k'

-- An object that `createNew` may return: not yet in use.
pub record IsFresh (t : Table) (p : ℕ) : Type 0 where
  pub unused : t.users p ≡ 0
  pub live : t.deleted p ≡ false
  pub nowhere : (k : ℕ) → t.active k ≢ some p

pub cases : (a b : ℕ) → (a ≡ b) ⊎ (a ≢ b)
cases a b = elim (Bool-cases (a == b)) [
  | inl e ↦ inl ((==_iff a b).0 e)
  | inr e ↦ inr (λ h. absurd (cc (sym ((==_iff a b).1 h) ∙ e)))
]

-- Another key is held as before, where its object is another one and its entries stay.
other-Held :
    (t t' : Table) (k n : ℕ)
    → t'.active k ≡ t.active k
    → ((p : ℕ) → t.active k ≡ some p → (t'.users p ≡ t.users p) × (t'.deleted p ≡ t.deleted p))
    → Held t k n
    → Held t' k n
other-Held t t' k n ea ep (nobody e z) = nobody (ea ∙ e) z
other-Held t t' k n ea ep (shared p e lt u d) =
    shared p (ea ∙ e) lt ((ep p e).0 ∙ u) ((ep p e).1 ∙ d)

module _ (t : Table) (held : ℕ → ℕ) (h : Tracks t held) (k : ℕ) where
  -- The objects of two keys are two.
  apart-ne : (k' p p' : ℕ) → k ≢ k' → t.active k ≡ some p → t.active k' ≡ some p' → p ≢ p'
  apart-ne k' p p' ne e e' same = ne (h.apart k k' p e (e' ∙ ap some (sym same)))

  pub join-Tracks :
      (p : ℕ)
      → t.active k ≡ some p
      → held k + 1 < u32
      → t.users p ≡ held k
      → t.deleted p ≡ false
      → Tracks (inc_users t p) (update held k (held k + 1))
  unfolding inc_users
  join-Tracks p e few u d = record {
    each = λ k'. elim (cases k k') [
      | inl s ↦
          subst (λ k'. Held (inc_users t p) k' (update held k (held k + 1) k')) s
            (shared p e (rw (update_self held k (held k + 1)) (omega arith))
              (update_self t.users p _
                ∙ rw u (omega (arith, few))
                ∙ sym (update_self held k (held k + 1)))
              d)
      | inr ne ↦ rw (update-ne held k (held k + 1) k' ne) (
          other-Held t (inc_users t p) k' (held k') refl
            (λ p' e'. (update-ne t.users p _ p' (apart-ne k' p p' ne e e'), refl)) (h.each k'))
    ];
    apart = h.apart;
  }

  pub create-Tracks :
      (p : ℕ)
      → t.active k ≡ none
      → held k ≡ 0
      → IsFresh t p
      → Tracks (create t k (some p)).0 (update held k (held k + 1))
  unfolding create inc_users
  create-Tracks p e zero_held f = record {
    each = λ k'. elim (cases k k') [
      | inl s ↦
          subst (λ k'. Held (create t k (some p)).0 k' (update held k (held k + 1) k')) s
            (shared p (update_self t.active k (some p))
              (rw (update_self held k (held k + 1)) (omega arith))
              (update_self t.users p _
                ∙ rw (f.unused, zero_held) refl
                ∙ sym (update_self held k (held k + 1)))
              f.live)
      | inr ne ↦ rw (update-ne held k (held k + 1) k' ne) (
          other-Held t (create t k (some p)).0 k' (held k') (update-ne t.active k (some p) k' ne)
            (λ p' e'. (update-ne t.users p _ p' (λ s. f.nowhere k' (e' ∙ ap some (sym s))), refl))
            (h.each k'))
    ];
    apart = λ k1 k2 q e1 e2. elim (cases k k1) [
      | inl s1 ↦
          let q1 : p ≡ q = some-injective _ _ (
            sym (update_self t.active k (some p))
            ∙ subst (λ j. update t.active k (some p) j ≡ some q) (sym s1) e1) in
          elim (cases k k2) [
            | inl s2 ↦ sym s1 ∙ s2
            | inr n2 ↦
                absurd
                  (f.nowhere k2 (sym (update-ne t.active k (some p) k2 n2) ∙ e2 ∙ ap some (sym q1)))
          ]
      | inr n1 ↦ elim (cases k k2) [
        | inl s2 ↦
            let q2 : p ≡ q = some-injective _ _ (
              sym (update_self t.active k (some p))
              ∙ subst (λ j. update t.active k (some p) j ≡ some q) (sym s2) e2) in
            absurd
              (f.nowhere k1 (sym (update-ne t.active k (some p) k1 n1) ∙ e1 ∙ ap some (sym q2)))
        | inr n2 ↦
            h.apart k1 k2 q (sym (update-ne t.active k (some p) k1 n1) ∙ e1)
              (sym (update-ne t.active k (some p) k2 n2) ∙ e2)
      ]
    ];
  }

  pub leave-Tracks :
      (p : ℕ)
      → t.active k ≡ some p
      → 0 < held k
      → held k < u32
      → t.users p ≡ held k
      → t.deleted p ≡ false
      → Tracks (dec_users t k p 1).0 (update held k (held k - 1))
        × ((dec_users t k p 1).1 ≡ (held k == 1))
  unfolding dec_users
  leave-Tracks p e some_held few u d = elim (cases (held k) 1) [
    | inl one ↦
        let gone : (t.users p == 1) ≡ true = (==_iff (t.users p) 1).1 (u ∙ one) in
        rw (gone, dec_users)
          (
            record {
              each = λ k'. elim (cases k k') [
                | inl s ↦
                    subst
                      (λ k'.
                        Held
                          (record {
                            active = update t.active k none;
                            users = update t.users p ((t.users p + u32 - 1 % u32) % u32);
                            deleted = update t.deleted p true;
                          })
                          k' (update held k (held k - 1) k'))
                      s
                      (nobody (update_self t.active k none)
                        (update_self held k (held k - 1) ∙ omega (arith, one)))
                | inr ne ↦ rw (update-ne held k (held k - 1) k' ne) (
                    other-Held t _ k' (held k') (update-ne t.active k none k' ne)
                      (λ p' e'. (
                        update-ne t.users p _ p' (apart-ne k' p p' ne e e'),
                        update-ne t.deleted p true p' (apart-ne k' p p' ne e e'),
                      ))
                      (h.each k'))
              ];
              apart = λ k1 k2 q e1 e2.
                  let n1 : k ≢ k1 = gone_ne k1 q e1 in
                  let n2 : k ≢ k2 = gone_ne k2 q e2 in
                  h.apart k1 k2 q (sym (update-ne t.active k none k1 n1) ∙ e1)
                    (sym (update-ne t.active k none k2 n2) ∙ e2);
            },
            sym ((==_iff (held k) 1).1 one),
          )
    | inr more ↦
        let v : (t.users p + u32 - 1 % u32) % u32 ≡ held k - 1 = omega (arith, u, few, some_held) in
        let stays : (t.users p == 1) ≡ false = ==_ne (t.users p) 1 (λ s. more (sym u ∙ s)) in
        rw (stays, dec_users)
          (
            record {
              each = λ k'. elim (cases k k') [
                | inl s ↦
                    subst
                      (λ k'.
                        Held
                          (record {
                            active = t.active;
                            users = update t.users p ((t.users p + u32 - 1 % u32) % u32);
                            deleted = t.deleted;
                          })
                          k' (update held k (held k - 1) k'))
                      s
                      (shared p e
                        (rw (update_self held k (held k - 1)) (omega (arith, some_held, more)))
                        (update_self t.users p _ ∙ v ∙ sym (update_self held k (held k - 1))) d)
                | inr ne ↦ rw (update-ne held k (held k - 1) k' ne) (
                    other-Held t _ k' (held k') refl
                      (λ p' e'. (update-ne t.users p _ p' (apart-ne k' p p' ne e e'), refl))
                      (h.each k'))
              ];
              apart = h.apart;
            },
            sym (==_ne (held k) 1 more),
          )
  ]
    where
      gone_ne : (k1 q : ℕ) → update t.active k none k1 ≡ some q → k ≢ k1
      gone_ne k1 q e1 s = none-ne-some q (
          sym (update_self t.active k none)
          ∙ subst (λ j. update t.active k none j ≡ some q) (sym s) e1)
