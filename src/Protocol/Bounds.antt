-- ===== src/Protocol/Bounds.antt =====
-- How large the packets are that ReadPacket lets through, and what they take off the stream.
use distributed_chat_system.Prelude.{
  ℕ, zero, suc, ◌+◌, ◌-◌, ◌≤◌, ◌<◌, ◌≡◌, ap, sym, ◌∙◌, Bool, true, ◌||◌, Option, none, some, arith,
  length, length-append, ltb, Bool-cases, inl, inr,
}
use distributed_chat_system.Networking.{Feed, recv_all}
use distributed_chat_system.Networking.Taking.{recv_all-Takes}
use distributed_chat_system.Protocol.{
  PacketType, RawPacket, read_payload, read_type, read_packet, of_be32, max_payload_size,
}

-- The bytes that a read took off.
abbrev Took : Feed → Option RawPacket × Feed → ℕ → Type 0
Took f out n = length f.stream ≡ n + length out.1.stream

abbrev size : Option RawPacket → ℕ
size none = 0
size (some p) = length p.payload

recv_all_shortens :
    (valid : Bool) (f : Feed) (n : ℕ)
    → (recv_all valid f n).ok ≡ true
    → length f.stream ≡ n + length (recv_all valid f n).feed.stream
recv_all_shortens valid f n ok =
    let t = recv_all-Takes valid f n in
    omega (
      arith,
      ap length t.parts,
      t.whole ok,
      length-append (recv_all valid f n).got (recv_all valid f n).feed.stream,
    )

read_payload-Took :
    (valid : Bool) (type : PacketType) (n : ℕ) (f : Feed) (p : RawPacket)
    → (read_payload valid type n f).0 ≡ some p
    → (length p.payload ≡ n) × Took f (read_payload valid type n f) n
unfolding read_payload
read_payload-Took valid type zero f p e = (sym (ap size e), omega arith)
read_payload-Took valid type (suc n) f p e = elim (Bool-cases (recv_all valid f (suc n)).ok) [
  | inl ok ↦
      let got = rw ok at e in
      rw ok (
        sym (ap size got) ∙ (recv_all-Takes valid f (suc n)).whole ok,
        recv_all_shortens valid f (suc n) ok,
      )
  | inr bad ↦ absurd (cc (rw bad at e))
]

read_type-Took :
    (valid : Bool) (total : ℕ) (f : Feed) (p : RawPacket)
    → (read_type valid total f).0 ≡ some p
    → (length p.payload ≡ total - 1) × Took f (read_type valid total f) (1 + (total - 1))
unfolding read_type
read_type-Took valid total f p e = elim (Bool-cases (recv_all valid f 1).ok) [
  | inl ok ↦
      let rest = read_payload-Took valid _ (total - 1) (recv_all valid f 1).feed p (rw ok at e) in
      rw ok (rest.0, omega (arith, rest.1, recv_all_shortens valid f 1 ok))
  | inr bad ↦ absurd (cc (rw bad at e))
]

-- Whatever stream a peer sends and however the system answers, a packet that is read has a payload
-- below the limit, and its frame of five bytes and the payload is what leaves the stream.
pub read_packet-bounded :
    (valid : Bool) (f : Feed) (p : RawPacket)
    → (read_packet valid f).0 ≡ some p
    → (length p.payload < max_payload_size)
      × (length f.stream ≡ 5 + length p.payload + length (read_packet valid f).1.stream)
unfolding read_packet
read_packet-bounded valid f p e = elim (Bool-cases (recv_all valid f 4).ok) [
  | inl ok ↦
      let total = of_be32 (recv_all valid f 4).got in
      elim (Bool-cases (ltb total 1 || ltb max_payload_size total)) [
        | inl refused ↦ absurd (cc (rw (ok, refused) at e))
        | inr fits ↦
            let rest =
              read_type-Took valid total (recv_all valid f 4).feed p (rw (ok, fits) at e) in
            let low : 1 ≤ total = ground (arith, fits) in
            let high : total ≤ max_payload_size = ground (arith, fits) in
            rw (ok, fits)
              (omega (arith, rest.0), omega (arith, rest.0, rest.1, recv_all_shortens valid f 4 ok))
      ]
  | inr bad ↦ absurd (cc (rw bad at e))
]
