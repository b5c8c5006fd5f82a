-- ===== src/Remote/Conserve.antt =====
-- When the task of `readBlock` returns, and the connections behind it.
use mathlib.Core.List.{append-nil}
use mathlib.Core.Option.{none-ne-some, some-injective}
use tazer.Base.{
  ℕ, zero, suc, ◌+◌, ◌≤◌, ◌≡◌, ◌≢◌, ◌↔◌, ◌⊎◌, if◌then◌else◌, ◌==◌, List, [], ◌∷◌, length, count,
  count-middle, length-append, Option, none, some, arith, refl, sym, ◌∙◌, ap, subst, inl, inr,
}
use tazer.Remote.Connections.{take_at, pop_connection, push_connection}
use tazer.Remote.Read.{Served, retry_block, read_remote}

take_at-count :
    (a k c : ℕ) (q : List ℕ)
    → (if (take_at k c q).0 == a then 1 else 0) + count a (take_at k c q).1 ≡ count a (c ∷ q)
take_at-count a k c [] = refl
take_at-count a zero c (d ∷ q) = refl
take_at-count a (suc k) c (d ∷ q) = omega (arith, take_at-count a k d q)

length-take_at : (k c : ℕ) (q : List ℕ) → length (take_at k c q).1 ≡ length q
length-take_at k c [] = refl
length-take_at zero c (d ∷ q) = refl
length-take_at (suc k) c (d ∷ q) = omega (arith, length-take_at k d q)

pub count-push :
    (a c : ℕ) (q : List ℕ) → count a (push_connection q c) ≡ (if c == a then 1 else 0) + count a q
count-push a c q =
    count-middle a c q [] ∙ ap (λ z. (if c == a then 1 else 0) + count a z) (append-nil q)

abbrev front : List ℕ → ℕ
front [] = 0
front (c ∷ q) = c

module _ {S D : Type 0} (request : S → ℕ → S × Option D) (best : List ℕ → ℕ) where
  retry_block-returns :
      (left : ℕ) (q : List ℕ) (sev : ℕ) (r : S × Option D)
      → 1 ≤ length q
      → (e : Served S D) × (retry_block request best left q sev r ≡ some e)
  unfolding retry_block pop_connection
  retry_block-returns left q sev (s, some d) h =
      (record { state = s; pool = push_connection q sev; answer = some d }, refl)
  retry_block-returns zero q sev (s, none) h =
      (record { state = s; pool = push_connection q sev; answer = none }, refl)
  retry_block-returns (suc left) [] sev (s, none) h = absurd (omega arith)
  retry_block-returns (suc left) (c ∷ q) sev (s, none) h =
      let t = take_at (best (c ∷ q)) c q in
      retry_block-returns left (push_connection t.1 sev) t.0 (request s t.0)
        (omega (arith, length-append t.1 (sev ∷ [])))

  retry_block-count :
      (a left : ℕ) (q : List ℕ) (sev : ℕ) (r : S × Option D) (e : Served S D)
      → retry_block request best left q sev r ≡ some e
      → count a e.pool ≡ (if sev == a then 1 else 0) + count a q
  unfolding retry_block pop_connection
  retry_block-count a left q sev (s, some d) e h =
      ap (λ (z : Served S D). count a z.pool) (sym (some-injective _ _ h)) ∙ count-push a sev q
  retry_block-count a zero q sev (s, none) e h =
      ap (λ (z : Served S D). count a z.pool) (sym (some-injective _ _ h)) ∙ count-push a sev q
  retry_block-count a (suc left) [] sev (s, none) e h = absurd (none-ne-some e h)
  retry_block-count a (suc left) (c ∷ q) sev (s, none) e h =
      let t = take_at (best (c ∷ q)) c q in
      omega (
        arith,
        retry_block-count a left (push_connection t.1 sev) t.0 (request s t.0) e h,
        count-push a sev t.1,
        take_at-count a (best (c ∷ q)) c q,
      )

  -- The answers after which the task of the last connection returns.
  alone :
      (c : ℕ) (r : S × Option D)
      → ((e : Served S D) × (retry_block request best 10 [] c r ≡ some e)) ↔ (r.1 ≢ none)
  unfolding retry_block pop_connection
  alone c (s, some d) = (
    λ h e. none-ne-some d (sym e),
    λ h. (record { state = s; pool = push_connection [] c; answer = some d }, refl),
  )
  alone c (s, none) = (λ h. absurd (none-ne-some h.0 h.1), λ h. absurd (h refl))

  -- The task of readBlock, on connections that no other transfer uses, returns exactly if there are
  -- two of them at least, or one over which the first request succeeds: a retry takes another
  -- connection before it gives the old one back. Where it returns, all connections are in the pool
  -- again, whichever popConnection chose.
  pub read_remote-returns :
      (s : S) (q : List ℕ)
      → (((e : Served S D) × (read_remote request best s q ≡ some e))
          ↔ ((2 ≤ length q) ⊎ ((c : ℕ) × (q ≡ c ∷ []) × ((request s c).1 ≢ none))))
        × ((e : Served S D) (a : ℕ)
            → read_remote request best s q ≡ some e
            → count a e.pool ≡ count a q)
  unfolding read_remote pop_connection
  read_remote-returns s [] = (
    (
      λ h. absurd (none-ne-some h.0 h.1),
      λ h. elim h [
        | inl l ↦ absurd (omega (arith, l))
        | inr (c, e, f) ↦ absurd (omega (arith, ap length e))
      ],
    ),
    λ e a h. absurd (none-ne-some e h),
  )
  read_remote-returns s (c ∷ []) = (
    (
      λ h. inr (c, refl, (alone c (request s c)).0 h),
      λ h. elim h [
        | inl l ↦ absurd (omega (arith, l))
        | inr (d, e, f) ↦
            let same : d ≡ c = ap front (sym e) in
            (alone c (request s c)).1 (subst (λ z. (request s z).1 ≢ none) same f)
      ],
    ),
    λ e a h. retry_block-count a 10 [] c (request s c) e h,
  )
  read_remote-returns s (c ∷ (d ∷ q)) =
      let t = take_at (best (c ∷ (d ∷ q))) c (d ∷ q) in
      (
        (
          λ h. inl (omega arith),
          λ h.
              retry_block-returns 10 t.1 t.0 (request s t.0)
                (omega (arith, length-take_at (best (c ∷ (d ∷ q))) c (d ∷ q))),
        ),
        λ e a h. omega (
          arith,
          retry_block-count a 10 t.1 t.0 (request s t.0) e h,
          take_at-count a (best (c ∷ (d ∷ q))) c (d ∷ q),
        ),
      )
