-- ===== src/Message/Retry.antt =====
-- The attempts of `clientSendRetry`.
use tazer.Base.{
  ℕ, zero, suc, ◌<◌, ◌≡◌, ◌↔◌, Bool, false, List, length, Bool-cases, arith, refl, sym, ◌∙◌, inl,
  inr,
}
use tazer.Message.Transfer.{Connection, is_sent, client_send_retry}

module _ {S : Type 0} (conn : Connection S) (bytes : List ℕ) where
  -- The connection before attempt `k`, where all attempts before it have failed.
  unfoldable pub before_attempt : ℕ → S → S
  before_attempt zero s = s
  before_attempt (suc k) s = before_attempt k (conn.restart_socket (conn.send_msg s bytes).0).0

  abbrev pub succeeds : S → Bool
  succeeds s = is_sent (conn.send_msg s bytes).1 (length bytes)

  -- `clientSendRetry` gives up exactly if every one of its attempts fails, each made on the
  -- connection that was restarted after the one before it.
  client_send_retry-gives_up :
      (n : ℕ) (s : S)
      → ((client_send_retry conn n s bytes).1 ≡ false)
        ↔ ((k : ℕ) → k < n → succeeds (before_attempt k s) ≡ false)
  unfolding client_send_retry before_attempt
  client_send_retry-gives_up zero s = (λ e k lt. absurd (omega arith), λ h. refl)
  client_send_retry-gives_up (suc n) s = elim (Bool-cases (succeeds s)) [
    | inl e ↦
        rw (e, client_send_retry)
          (
            λ f. absurd (cc f),
            λ h. absurd (let z : succeeds s ≡ false = h 0 (omega arith) in cc (sym e ∙ z)),
          )
    | inr e ↦
        let r = client_send_retry-gives_up n (conn.restart_socket (conn.send_msg s bytes).0).0 in
        rw (e, client_send_retry)
          (λ f k lt. later e k f lt r.0, λ h. r.1 (λ k lt. h (suc k) (omega arith)))
  ]
    where
      later :
          succeeds s ≡ false
          → (k : ℕ)
          → (client_send_retry conn n (conn.restart_socket (conn.send_msg s bytes).0).0 bytes).1
            ≡ false
          → k < suc n
          → ((client_send_retry conn n (conn.restart_socket (conn.send_msg s bytes).0).0 bytes).1
                ≡ false
              → (k : ℕ) → k < n
              → succeeds (before_attempt k (conn.restart_socket (conn.send_msg s bytes).0).0)
                ≡ false)
          → succeeds (before_attempt k s) ≡ false
      later e zero f lt g = e
      later e (suc k) f lt g = g f k (omega arith)
