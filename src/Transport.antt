-- ===== src/Transport.antt =====
-- The transport of src/common/protocol.c: `send_all` and `recv_all`, the loops over the calls
-- `send` and `recv` of the system, and the two functions on headers. The socket is a parameter.
pub mod Sending
pub mod Receiving
pub mod Exchange
use collaborative_doc.Prelude.{
  ℕ, zero, suc, ◌+◌, ◌-◌, Option, none, some, [], ◌∷◌, ◌++◌, if◌then◌else◌, ltb, ◌≤◌, ◌<◌, ◌≡◌, ◌≢◌,
  take, Text, length, drop,
}

-- The system's calls on a connection with the state `S`. `none` is a negative result; `send` gives
-- the number of bytes that it took, `recv` at most so many bytes as it is asked for.
pub record Socket (S : Type 0) : Type 0 where
  pub send : Text → S → Option ℕ × S
  pub recv : ℕ → S → Option Text × S

pub data Status : Type 0 where
  ok failed out_of_fuel : Status

pub record Received (S : Type 0) : Type 0 where
  pub status : Status
  pub bytes : Text
  pub socket : S

module _ {S : Type 0} (k : Socket S) where
  -- Each round counts one unit of fuel.
  unfoldable pub send_all : ℕ → Text → ℕ → S → Status × S
  send_all zero buf total_sent s = (if ltb total_sent (length buf) then out_of_fuel else ok, s)
  send_all (suc fuel) buf total_sent s =
      if ltb total_sent (length buf)
      then (let (bytes_sent, s') = k.send (drop total_sent buf) s in
          elim bytes_sent as (λ x. Status × S) [
            | none ↦ (failed, s')
            | some n ↦ elim n as (λ x. Status × S) [
              | zero ↦ (failed, s')
              | suc m ↦ send_all fuel buf (total_sent + suc m) s'
            ]
          ])
      else (ok, s)

  -- `got` is what the buffer holds so far.
  unfoldable pub recv_all : ℕ → ℕ → Text → S → Received S
  recv_all zero len got s = record {
    status = if ltb (length got) len then out_of_fuel else ok;
    bytes = got;
    socket = s;
  }
  recv_all (suc fuel) len got s =
      if ltb (length got) len
      then (let (received, s') = k.recv (len - length got) s in
          elim received as (λ x. Received S) [
            | none ↦ record { status = failed; bytes = got; socket = s' }
            | some t ↦ elim t as (λ x. Received S) [
              | [] ↦ record { status = failed; bytes = got; socket = s' }
              | c ∷ t' ↦ recv_all fuel len (got ++ c ∷ t') s'
            ]
          ])
      else record { status = ok; bytes = got; socket = s }

  -- `header` is the bytes of a `MessageHeader`, `size` their number.
  abbrev pub send_header : Text → S → Status × S
  send_header header = send_all (length header) header 0

  abbrev pub recv_header : ℕ → S → Received S
  recv_header size = recv_all size size []

-- What the documentation of a stream socket says: `pending` is what was sent and not received yet.
-- `send` takes a first part of what it is given, and `recv` takes a first part of what is pending.
pub record IsStream {S : Type 0} (k : Socket S) (pending : S → Text) : Type 0 where
  pub sent :
      (b : Text) (s : S) (n : ℕ)
      → (k.send b s).0 ≡ some n
      → (n ≤ length b) × (pending (k.send b s).1 ≡ pending s ++ take n b)
  pub received :
      (n : ℕ) (s : S) (t : Text)
      → (k.recv n s).0 ≡ some t
      → (length t ≤ n) × (pending s ≡ t ++ pending (k.recv n s).1)

-- Something is received where something is pending.
abbrev pub Delivers : {S : Type 0} → Socket S → (S → Text) → Type 0
Delivers {S} k pending =
    (n : ℕ) (s : S)
    → 0 < n
    → pending s ≢ []
    → (c : ℕ) × (t : Text) × ((k.recv n s).0 ≡ some (c ∷ t))
