-- ===== src/Protocol/Frames.antt =====
-- A packet that is serialized and sent is the packet that is read.
use distributed_chat_system.Prelude.{
  ℕ, ◌+◌, ◌-◌, ◌%◌, ◌^◌, ◌≤◌, ◌<◌, ◌≡◌, refl, ap, sym, ◌∙◌, true, false, ◌||◌, Option, none, some,
  [], ◌∷◌, ◌++◌, arith, ltb, length, subst, append_assoc, take_of_length-le,
}
use distributed_chat_system.Text.{Bytes}
use distributed_chat_system.Networking.{Answers, Feed, patience, recv_all}
use distributed_chat_system.Networking.Receiving.{Reads, recv_all-Reads}
use distributed_chat_system.Protocol.{
  PacketType, unknown, login, RawPacket, to_byte, of_byte, be32, of_be32, serialize, read_packet,
  read_type, read_payload, first_byte, max_payload_size,
}

-- The type is one of the enumerators.
abbrev pub IsNamed : PacketType → Type 0
IsNamed (unknown b) = ⊥
IsNamed _ = Unit {0}

of_byte-to_byte : (t : PacketType) → IsNamed t → of_byte (to_byte t) ≡ t
unfolding of_byte to_byte
of_byte-to_byte login h = refl
of_byte-to_byte (unknown b) h = absurd h
of_byte-to_byte _ h = refl

of_be32-be32 : (n : ℕ) → n < 2 ^ 32 → of_be32 (be32 n) ≡ n
unfolding of_be32 be32
of_be32-be32 n h = omega arith

pub length-be32 : (n : ℕ) → length (be32 n) ≡ 4
unfolding be32
length-be32 n = refl

-- The frame of a payload that the 32-bit lengths can count.
pub serialize_lem :
    (t : PacketType) (p : Bytes)
    → 1 + length p < 2 ^ 32
    → serialize t p ≡ be32 (1 + length p) ++ (to_byte t ∷ p)
unfolding serialize
serialize_lem t p h =
    let e : length p % 2 ^ 32 ≡ length p = omega arith in
    let e' : (1 + length p) % 2 ^ 32 ≡ 1 + length p = omega arith in
    rw (e, e', take_of_length-le (length p) p (omega arith))

-- What a successful read of a packet gives.
pub record Delivers (p : RawPacket) (rest : Bytes) (a : Answers) (cost : ℕ)
    (out : Option RawPacket × Feed) : Type 0 where
  pub packet : out.0 ≡ some p
  pub leaves : out.1.stream ≡ rest
  pub answers_left : patience a ≤ patience out.1.answers + cost

recv_feed :
    (f : Feed) (want rest : Bytes)
    → f.stream ≡ want ++ rest
    → length want ≤ patience f.answers
    → Reads want rest f.answers (recv_all true f (length want))
recv_feed f want rest e h =
    subst
      (λ st.
        Reads want rest f.answers
          (recv_all true (record { answers = f.answers; stream = st }) (length want)))
      (sym e) (recv_all-Reads f.answers want rest h)

read_payload-Delivers :
    (t : PacketType) (p rest : Bytes) (f : Feed)
    → f.stream ≡ p ++ rest
    → length p ≤ patience f.answers
    → Delivers
        (record { type = t; payload = p })
        rest
        f.answers
        (length p)
        (read_payload true t (length p) f)
unfolding read_payload
read_payload-Delivers t [] rest f e h = record {
  packet = refl;
  leaves = e;
  answers_left = omega arith;
}
read_payload-Delivers t (c ∷ p) rest f e h =
    let r = recv_feed f (c ∷ p) rest e h in
    rw r.succeeds (record {
      packet = ap (λ b. some (record { type = t; payload = b })) r.exact;
      leaves = r.leaves;
      answers_left = r.answers_left;
    })

read_type-Delivers :
    (t : PacketType) (p rest : Bytes) (f : Feed)
    → IsNamed t
    → f.stream ≡ to_byte t ∷ (p ++ rest)
    → 1 + length p ≤ patience f.answers
    → Delivers
        (record { type = t; payload = p })
        rest
        f.answers
        (1 + length p)
        (read_type true (1 + length p) f)
unfolding read_type
read_type-Delivers t p rest f named e h =
    let r = recv_feed f (to_byte t ∷ []) (p ++ rest) e (omega arith) in
    let d =
      read_payload-Delivers t p rest (recv_all true f 1).feed r.leaves
        (omega (arith, r.answers_left)) in
    let left : 1 + length p - 1 ≡ length p = omega arith in
    rw (r.succeeds, r.exact, left)
      (unfold first_byte in
        rw (of_byte-to_byte t named) (record {
          packet = d.packet;
          leaves = d.leaves;
          answers_left = omega (arith, d.answers_left, r.answers_left);
        }))

in_range : (n : ℕ) → 1 ≤ n → n ≤ max_payload_size → (ltb n 1 || ltb max_payload_size n) ≡ false
in_range n h k = ground arith

too_long : (n : ℕ) → max_payload_size < n → (ltb n 1 || ltb max_payload_size n) ≡ true
too_long n h = ground arith

-- A packet of a named type whose payload is shorter than the limit is read back as it was
-- serialized, however the system cuts the stream up, and the rest of the stream is left alone.
pub read_packet-serialize :
    (t : PacketType) (p rest : Bytes) (a : Answers)
    → IsNamed t
    → length p < max_payload_size
    → 5 + length p ≤ patience a
    → Delivers
        (record { type = t; payload = p })
        rest
        a
        (5 + length p)
        (read_packet true (record { answers = a; stream = serialize t p ++ rest }))
unfolding read_packet
read_packet-serialize t p rest a named h k =
    let f : Feed = record { answers = a; stream = serialize t p ++ rest } in
    let n = 1 + length p in
    let framed : serialize t p ++ rest ≡ be32 n ++ (to_byte t ∷ (p ++ rest)) =
      ap (λ b. b ++ rest) (serialize_lem t p (omega arith))
      ∙ append_assoc (be32 n) (to_byte t ∷ p) rest in
    let r =
      subst (λ m. Reads (be32 n) (to_byte t ∷ (p ++ rest)) a (recv_all true f m)) (length-be32 n)
        (recv_feed f (be32 n) (to_byte t ∷ (p ++ rest)) framed (omega (arith, length-be32 n))) in
    let d =
      read_type-Delivers t p rest (recv_all true f 4).feed named r.leaves
        (omega (arith, r.answers_left, length-be32 n)) in
    rw (r.succeeds, r.exact, of_be32-be32 n (omega arith), in_range n (omega arith) (omega arith))
      (record {
        packet = d.packet;
        leaves = d.leaves;
        answers_left = omega (arith, d.answers_left, r.answers_left, length-be32 n);
      })

-- Serialize has no limit of its own: a payload of `max_payload_size` bytes or more makes a frame
-- that every reader refuses, after its first four bytes.
pub read_packet_oversize :
    (t : PacketType) (p rest : Bytes) (a : Answers)
    → max_payload_size ≤ length p
    → 1 + length p < 2 ^ 32
    → 4 ≤ patience a
    → (read_packet true (record { answers = a; stream = serialize t p ++ rest })).0 ≡ none
unfolding read_packet
read_packet_oversize t p rest a h k enough =
    let f : Feed = record { answers = a; stream = serialize t p ++ rest } in
    let n = 1 + length p in
    let framed : serialize t p ++ rest ≡ be32 n ++ (to_byte t ∷ (p ++ rest)) =
      ap (λ b. b ++ rest) (serialize_lem t p k) ∙ append_assoc (be32 n) (to_byte t ∷ p) rest in
    let r =
      subst (λ m. Reads (be32 n) (to_byte t ∷ (p ++ rest)) a (recv_all true f m)) (length-be32 n)
        (recv_feed f (be32 n) (to_byte t ∷ (p ++ rest)) framed (omega (arith, length-be32 n))) in
    rw (r.succeeds, r.exact, of_be32-be32 n k, too_long n (omega arith))
