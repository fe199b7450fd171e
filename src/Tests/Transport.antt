-- ===== src/Tests/Transport.antt =====
-- Runs of the transport on a connection that takes two bytes at a time and gives one.
use collaborative_doc.Prelude.{
  ℕ, zero, suc, ◌≡◌, ◌≢◌, ◌≤◌, refl, Option, none, some, [], ◌∷◌, ◌++◌, Text, length, take, arith,
}
use collaborative_doc.Transport.{
  Socket, ok, out_of_fuel, send_all, recv_all, send_header, recv_header, IsStream, Delivers,
}
use collaborative_doc.Transport.Exchange.{loops_end, recv_all-send_all}
use collaborative_doc.Tests.Sample.{doc, alice}

abbrev one_byte : ℕ → Text → Option Text × Text
one_byte n [] = (none, [])
one_byte zero (c ∷ s) = (some [], c ∷ s)
one_byte (suc n) (c ∷ s) = (some (c ∷ []), s)

abbrev slow : Socket Text
slow = record { send = λ b s. (some (length (take 2 b)), s ++ take 2 b); recv = one_byte }

take-take : (b : Text) → take (length (take 2 b)) b ≡ take 2 b
take-take [] = refl
take-take (x ∷ []) = refl
take-take (x ∷ y ∷ b) = refl

length-take-le : (b : Text) → length (take 2 b) ≤ length b
length-take-le [] = omega arith
length-take-le (x ∷ []) = omega arith
length-take-le (x ∷ y ∷ b) = omega arith

slow-sent :
    (b s : Text) (n : ℕ)
    → (slow.send b s).0 ≡ some n
    → (n ≤ length b) × ((slow.send b s).1 ≡ s ++ take n b)
slow-sent b s n e =
    let same : n ≡ length (take 2 b) = cc e in
    (rw same (length-take-le b), rw (same, take-take b) refl)

slow-received :
    (n : ℕ) (s t : Text)
    → (slow.recv n s).0 ≡ some t
    → (length t ≤ n) × (s ≡ t ++ (slow.recv n s).1)
slow-received n [] t e = absurd (cc e)
slow-received zero (c ∷ s) t e = let same : t ≡ [] = cc e in (rw same (omega arith), rw same refl)
slow-received (suc n) (c ∷ s) t e =
    let same : t ≡ c ∷ [] = cc e in (rw same (omega arith), rw same refl)

slow-IsStream : IsStream slow (λ s. s)
slow-IsStream = record { sent = slow-sent; received = slow-received }

slow-Delivers : Delivers slow (λ s. s)
slow-Delivers n [] h q = absurd (q refl)
slow-Delivers zero (c ∷ s) h q = absurd (omega arith)
slow-Delivers (suc n) (c ∷ s) h q = (c, [], refl)

loops_end_example :
    ((send_all slow 5 alice 0 doc).0 ≢ out_of_fuel)
    × ((recv_all slow 4 4 [] doc).status ≢ out_of_fuel)
loops_end_example = loops_end slow alice 4 doc

header_sent : (send_header slow doc []).0 ≡ ok
unfolding send_all
header_sent = refl

payload_sent : (send_all slow 5 alice 0 (send_header slow doc []).1).0 ≡ ok
unfolding send_all
payload_sent = refl

recv_all-send_all_example :
    let sent = (send_all slow 5 alice 0 (send_header slow doc []).1).1 in
    let first = recv_header slow 3 sent in
    let second = recv_all slow 5 5 [] first.socket in
    (first.status ≡ ok)
    × (first.bytes ≡ doc)
    × (second.status ≡ ok)
    × (second.bytes ≡ alice)
    × (second.socket ≡ [])
recv_all-send_all_example =
    recv_all-send_all slow (λ s. s) slow-IsStream slow-Delivers doc alice [] refl header_sent
      payload_sent
