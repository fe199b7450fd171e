-- ===== src/Transport/Sending.antt =====
-- The loop of `send_all` ends, and puts the buffer behind what is pending.
use collaborative_doc.Prelude.{
  ℕ, zero, suc, ◌+◌, ◌≤◌, ◌≡◌, ◌≢◌, ◌∙◌, refl, some, inl, inr, ◌++◌, ltb, Text, length, length-drop,
  drop, drop_of_length-le, drop-drop, take, take-append-drop, append_assoc, append-nil, arith,
  Bool-cases, Option-cases,
}
use collaborative_doc.Transport.{Socket, ok, out_of_fuel, send_all, IsStream}

module _ {S : Type 0} (k : Socket S) where
  -- A unit of fuel for each byte that is left is enough.
  pub send_all_lem :
      (fuel : ℕ) (buf : Text) (total : ℕ) (s : S)
      → length buf ≤ total + fuel
      → (send_all k fuel buf total s).0 ≢ out_of_fuel
  unfolding send_all
  send_all_lem zero buf total s h = ground arith
  send_all_lem (suc fuel) buf total s h = elim (Bool-cases (ltb total (length buf))) [
    | inr n ↦ rw n (λ e. absurd (cc e))
    | inl y ↦ elim (Option-cases (k.send (drop total buf) s).0) [
      | inl n ↦ rw (y, n) (λ e. absurd (cc e))
      | inr (zero, e) ↦ rw (y, e) (λ e'. absurd (cc e'))
      | inr (suc m, e) ↦
          rw (y, e)
            (send_all_lem fuel buf (total + suc m) (k.send (drop total buf) s).1 (omega arith))
    ]
  ]

  module _ (pending : S → Text) (stream : IsStream k pending) where
    -- One call of `send` on what is left of the buffer.
    send-drop :
        (buf : Text) (total m : ℕ) (s : S)
        → (k.send (drop total buf) s).0 ≡ some m
        → pending (k.send (drop total buf) s).1 ++ drop (total + m) buf
          ≡ pending s ++ drop total buf
    send-drop buf total m s e =
        rw
          (
            (stream.sent (drop total buf) s m e).1,
            ← drop-drop total m buf,
            append_assoc (pending s) (take m (drop total buf)) (drop m (drop total buf)),
            take-append-drop m (drop total buf),
          )
          refl

    pub pending-send_all :
        (fuel : ℕ) (buf : Text) (total : ℕ) (s : S)
        → total ≤ length buf
        → (send_all k fuel buf total s).0 ≡ ok
        → pending (send_all k fuel buf total s).1 ≡ pending s ++ drop total buf
    unfolding send_all
    pending-send_all zero buf total s l h = elim (Bool-cases (ltb total (length buf))) [
      | inl y ↦ absurd (cc (rw y at h))
      | inr n ↦
          let full : length buf ≤ total = ground arith in
          rw (drop_of_length-le total buf full, append-nil (pending s)) refl
    ]
    pending-send_all (suc fuel) buf total s l h = elim (Bool-cases (ltb total (length buf))) [
      | inr n ↦
          let full : length buf ≤ total = ground arith in
          rw (n, drop_of_length-le total buf full, append-nil (pending s)) refl
      | inl y ↦ elim (Option-cases (k.send (drop total buf) s).0) [
        | inl n ↦ absurd (cc (rw (y, n) at h))
        | inr (zero, e) ↦ absurd (cc (rw (y, e) at h))
        | inr (suc m, e) ↦
            let inside : total + suc m ≤ length buf =
              omega (arith, (stream.sent (drop total buf) s (suc m) e).0, length-drop total buf) in
            rw (y, e)
              (pending-send_all fuel buf (total + suc m) (k.send (drop total buf) s).1 inside
                  (rw (y, e) at h)
                ∙ send-drop buf total (suc m) s e)
      ]
    ]
