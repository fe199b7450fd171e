-- ===== src/Transport/Receiving.antt =====
-- The loop of `recv_all` ends, and takes what it was asked for from the front of what is pending.
use collaborative_doc.Prelude.{
  ℕ, zero, suc, ◌+◌, ◌-◌, ◌≤◌, ◌≡◌, ◌≢◌, ◌∙◌, refl, sym, ap, inl, inr, true, false, [], ◌∷◌, ◌++◌,
  ltb, Text, length, length-append, length-drop, drop, append_assoc, append-nil, append-split,
  arith, Bool-cases, Option-cases,
}
use collaborative_doc.Transport.{Socket, ok, out_of_fuel, recv_all, IsStream, Delivers}

module _ {S : Type 0} (k : Socket S) where
  -- A unit of fuel for each byte that is missing is enough.
  pub recv_all_lem :
      (fuel len : ℕ) (got : Text) (s : S)
      → len ≤ length got + fuel
      → (recv_all k fuel len got s).status ≢ out_of_fuel
  unfolding recv_all
  recv_all_lem zero len got s h = ground arith
  recv_all_lem (suc fuel) len got s h = elim (Bool-cases (ltb (length got) len)) [
    | inr n ↦ rw n (λ e. absurd (cc e))
    | inl y ↦ elim (Option-cases (k.recv (len - length got) s).0) [
      | inl n ↦ rw (y, n) (λ e. absurd (cc e))
      | inr ([], e) ↦ rw (y, e) (λ e'. absurd (cc e'))
      | inr (c ∷ t, e) ↦
          rw (y, e)
            (recv_all_lem fuel len (got ++ c ∷ t) (k.recv (len - length got) s).1
              (omega (arith, length-append got (c ∷ t))))
    ]
  ]

  module _ (pending : S → Text) (stream : IsStream k pending) (delivers : Delivers k pending) where
    -- With the bytes `b` at the front of what is pending, the loop reads them all and no more.
    pub recv_all-pending :
        (fuel len : ℕ) (got b rest : Text) (s : S)
        → pending s ≡ b ++ rest
        → length got + length b ≡ len
        → length b ≤ fuel
        → ((recv_all k fuel len got s).status ≡ ok)
          × ((recv_all k fuel len got s).bytes ≡ got ++ b)
          × (pending (recv_all k fuel len got s).socket ≡ rest)
    unfolding recv_all
    recv_all-pending zero len got [] rest s p l f =
        let n : ltb (length got) len ≡ false = ground arith in (rw n refl, sym (append-nil got), p)
    recv_all-pending zero len got (c ∷ b) rest s p l f = absurd (omega arith)
    recv_all-pending (suc fuel) len got [] rest s p l f =
        let n : ltb (length got) len ≡ false = ground arith in
        (rw n refl, rw n (sym (append-nil got)), rw n p)
    recv_all-pending (suc fuel) len got (b0 ∷ b) rest s p l f =
        let y : ltb (length got) len ≡ true = ground arith in
        let (c, t, e) =
          delivers (len - length got) s (omega arith) (λ q. absurd (cc (sym p ∙ q))) in
        let (short, split) = stream.received (len - length got) s (c ∷ t) e in
        let s' = (k.recv (len - length got) s).1 in
        let (e1, e2) =
          append-split (c ∷ t) (pending s') (b0 ∷ b) rest (sym split ∙ p) (omega arith) in
        let left = drop (length (c ∷ t)) (b0 ∷ b) in
        let count : length left ≡ length (b0 ∷ b) - length (c ∷ t) =
          length-drop (length (c ∷ t)) (b0 ∷ b) in
        let (h1, h2, h3) =
          recv_all-pending fuel len (got ++ c ∷ t) left rest s' e2
            (omega (arith, length-append got (c ∷ t), count)) (omega (arith, count)) in
        (
          rw (y, e) h1,
          rw (y, e) (h2 ∙ append_assoc got (c ∷ t) left ∙ ap (λ x. got ++ x) (sym e1)),
          rw (y, e) h3,
        )
