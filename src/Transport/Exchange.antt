-- ===== src/Transport/Exchange.antt =====
-- A header with its payload, from one end to the other.
use collaborative_doc.Prelude.{ℕ, ◌≢◌, ◌≡◌, ◌∙◌, sym, ap, [], ◌++◌, Text, length, append-nil, arith}
use collaborative_doc.Transport.{
  Socket, ok, out_of_fuel, send_all, recv_all, send_header, recv_header, IsStream, Delivers,
}
use collaborative_doc.Transport.Sending.{pending-send_all, send_all_lem}
use collaborative_doc.Transport.Receiving.{recv_all-pending, recv_all_lem}

-- The loops of send_all and recv_all go round at most once for each byte of the buffer, whatever
-- the calls of the system do.
pub loops_end :
    {S : Type 0} (k : Socket S) (buf : Text) (len : ℕ) (s : S)
    → ((send_all k (length buf) buf 0 s).0 ≢ out_of_fuel)
      × ((recv_all k len len [] s).status ≢ out_of_fuel)
loops_end k buf len s =
    (send_all_lem k (length buf) buf 0 s (omega arith), recv_all_lem k len len [] s (omega arith))

-- A header and a payload that are sent on an idle connection without an error are received at the
-- other end, each whole and nothing more, however the calls of the system split the bytes, if the
-- connection keeps their order and gives something where something is pending.
pub recv_all-send_all :
    {S : Type 0} (k : Socket S) (pending : S → Text)
    → IsStream k pending
    → Delivers k pending
    → (header payload : Text) (s : S) → pending s ≡ []
    → (send_header k header s).0 ≡ ok
    → (send_all k (length payload) payload 0 (send_header k header s).1).0 ≡ ok
    → let sent = (send_all k (length payload) payload 0 (send_header k header s).1).1 in
      let first = recv_header k (length header) sent in
      let second = recv_all k (length payload) (length payload) [] first.socket in
      (first.status ≡ ok)
      × (first.bytes ≡ header)
      × (second.status ≡ ok)
      × (second.bytes ≡ payload)
      × (pending second.socket ≡ [])
recv_all-send_all k pending stream delivers header payload s idle h1 h2 =
    let s1 = (send_header k header s).1 in
    let sent = (send_all k (length payload) payload 0 s1).1 in
    let p1 : pending s1 ≡ header =
      pending-send_all k pending stream (length header) header 0 s (omega arith) h1
      ∙ ap (λ x. x ++ header) idle in
    let p2 : pending sent ≡ header ++ payload =
      pending-send_all k pending stream (length payload) payload 0 s1 (omega arith) h2
      ∙ ap (λ x. x ++ payload) p1 in
    let (a1, a2, a3) =
      recv_all-pending k pending stream delivers (length header) (length header) [] header payload
        sent p2 (omega arith) (omega arith) in
    let first = recv_header k (length header) sent in
    let (b1, b2, b3) =
      recv_all-pending k pending stream delivers (length payload) (length payload) [] payload []
        first.socket (a3 ∙ sym (append-nil payload)) (omega arith) (omega arith) in
    (a1, a2, b1, b2, b3)
