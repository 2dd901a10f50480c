-- ===== src/Client/Termination.antt =====
-- The receive loop of a client on any stream.
use distributed_chat_system.Prelude.{
  ℕ, zero, suc, ◌+◌, ◌<◌, ◌≡◌, refl, Bool, false, Option, none, some, arith, length, Option-cases,
  Bool-cases, inl, inr,
}
use distributed_chat_system.Networking.{Feed, is_valid}
use distributed_chat_system.Protocol.{RawPacket, read_packet}
use distributed_chat_system.Protocol.Bounds.{read_packet-bounded}
use distributed_chat_system.Client.{
  ChatClient, handle_packet, lose_connection, after_read, receive_rounds, receive_loop,
}

-- A crash, or a client that does not run any more.
abbrev pub Ended : Option ChatClient → Type 0
Ended none = Unit
Ended (some d) = d.running ≡ false

lost-Ended : (c : ChatClient) → (lose_connection c).running ≡ false
unfolding lose_connection
lost-Ended c = ground arith

after_read-Ended :
    (read : Option RawPacket) (next : ChatClient → Option ChatClient) (c : ChatClient)
    → ((p : RawPacket) → read ≡ some p → (d : ChatClient) → Ended (next d))
    → Ended (after_read read next c)
unfolding after_read
after_read-Ended none next c h = lost-Ended c
after_read-Ended (some p) next c h = elim (Option-cases (handle_packet p c)) [
  | inl e ↦ rw (e, after_read) tt
  | inr (d, e) ↦ rw (e, after_read) (h p refl d)
]

after_read-same :
    (read : Option RawPacket) (next after : ChatClient → Option ChatClient) (c : ChatClient)
    → ((p : RawPacket) → read ≡ some p → (d : ChatClient) → next d ≡ after d)
    → after_read read next c ≡ after_read read after c
unfolding after_read
after_read-same none next after c h = refl
after_read-same (some p) next after c h = elim (Option-cases (handle_packet p c)) [
  | inl e ↦ rw (e, after_read) refl
  | inr (d, e) ↦ rw (e, after_read) (h p refl d)
]

-- A round that reads a packet leaves a shorter stream.
shorter :
    (valid : Bool) (f : Feed) (n : ℕ) (p : RawPacket)
    → length f.stream < suc n
    → (read_packet valid f).0 ≡ some p
    → length (read_packet valid f).1.stream < n
shorter valid f n p h e = omega (arith, h, (read_packet-bounded valid f p e).1)

receive_rounds-Ended :
    (n : ℕ) (f : Feed) (c : ChatClient) → length f.stream < n → Ended (receive_rounds n f c)
unfolding receive_rounds
receive_rounds-Ended zero f c h = absurd (omega (arith, h))
receive_rounds-Ended (suc n) f c h = elim (Bool-cases c.running) [
  | inr off ↦ rw (off, receive_rounds) off
  | inl on ↦
      let v = is_valid c.socket in
      rw (on, receive_rounds)
        (after_read-Ended (read_packet v f).0 _ c
          (λ p e d. receive_rounds-Ended n (read_packet v f).1 d (shorter v f n p h e)))
]

receive_rounds-same :
    (n m : ℕ) (f : Feed) (c : ChatClient)
    → length f.stream < n
    → length f.stream < m
    → receive_rounds n f c ≡ receive_rounds m f c
unfolding receive_rounds
receive_rounds-same zero m f c h k = absurd (omega (arith, h))
receive_rounds-same (suc n) zero f c h k = absurd (omega (arith, k))
receive_rounds-same (suc n) (suc m) f c h k = elim (Bool-cases c.running) [
  | inr off ↦ rw (off, receive_rounds) refl
  | inl on ↦
      let v = is_valid c.socket in
      rw (on, receive_rounds)
        (after_read-same (read_packet v f).0 _ _ c (λ p e d.
          receive_rounds-same n m (read_packet v f).1 d (shorter v f n p h e)
            (shorter v f m p k e)))
]

-- On any stream and with any answers of the system the receive loop comes to an end: it crashes, or
-- the client does not run any more; and any number of rounds above the number of bytes of the stream
-- gives the same result.
pub receive_loop_ends :
    (f : Feed) (c : ChatClient) (n : ℕ)
    → length f.stream < n
    → Ended (receive_loop f c) × (receive_rounds n f c ≡ receive_loop f c)
unfolding receive_loop
receive_loop_ends f c n h = (
  receive_rounds-Ended (length f.stream + 1) f c (omega arith),
  receive_rounds-same n (length f.stream + 1) f c h (omega arith),
)
