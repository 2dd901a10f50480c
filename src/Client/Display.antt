-- ===== src/Client/Display.antt =====
-- What a client shows of a stream of packets.
use distributed_chat_system.Prelude.{
  ℕ, zero, suc, ◌+◌, ◌≤◌, ◌<◌, ◌≡◌, refl, sym, ap, subst, ◌∙◌, Bool, true, false, Option, none,
  some, List, [], ◌∷◌, ◌++◌, arith, length, length-append, append-nil, append_assoc, All,
  Option-cases, inl, inr,
}
use distributed_chat_system.Text.{Bytes}
use distributed_chat_system.Networking.{
  Answers, fails, would_block, moves, patience, Feed, is_valid, recv_loop, recv_all,
}
use distributed_chat_system.Protocol.{RawPacket, serialize, read_packet, max_payload_size, be32}
use distributed_chat_system.Protocol.Frames.{
  IsNamed, Delivers, serialize_lem, length-be32, read_packet-serialize,
}
use distributed_chat_system.Client.{
  ChatClient, show_packet, print, handle_packet, lose_connection, after_read, receive_rounds,
  receive_loop,
}

-- A stream of packets.
abbrev pub frames : List RawPacket → Bytes
frames [] = []
frames (p ∷ ps) = serialize p.type p.payload ++ frames ps

-- A packet that Serialize and ReadPacket agree about.
abbrev pub IsSendable : RawPacket → Type 0
IsSendable p = IsNamed p.type × (length p.payload < max_payload_size)

-- What is printed of a list of packets, one after the other.
abbrev pub shown : List RawPacket → Option Bytes
shown [] = some []
shown (p ∷ ps) = elim (show_packet p.type p.payload) [
  | none ↦ none
  | some text ↦ elim (shown ps) [ none ↦ none | some more ↦ some (text ++ more) ]
]

abbrev pub ends : Option Bytes → ChatClient → Option ChatClient
ends none c = none
ends (some text) c = some (lose_connection (print text c))

recv_loop-end : (valid : Bool) (a : Answers) (n : ℕ) → (recv_loop valid a [] (suc n)).ok ≡ false
unfolding recv_loop
recv_loop-end valid fails n = refl
recv_loop-end valid (would_block a) n = recv_loop-end valid a n
recv_loop-end true (moves k a) n = refl
recv_loop-end false (moves k a) n = refl

-- No packet can be read at the end of the stream.
read_packet-end :
    (valid : Bool) (a : Answers)
    → (read_packet valid (record { answers = a; stream = [] })).0 ≡ none
unfolding read_packet recv_all
read_packet-end valid a = rw (recv_loop-end valid a 3)

pub length-serialize :
    (p : RawPacket) → IsSendable p → length (serialize p.type p.payload) ≡ 5 + length p.payload
length-serialize p h =
    ap length (serialize_lem p.type p.payload (omega arith))
    ∙ omega (
      arith,
      length-append (be32 (1 + length p.payload)) (_ ∷ p.payload),
      length-be32 (1 + length p.payload),
    )

-- A packet at the front of any stream.
pub read_packet-frame :
    (p : RawPacket) (rest : Bytes) (f : Feed)
    → IsSendable p
    → f.stream ≡ serialize p.type p.payload ++ rest
    → 5 + length p.payload ≤ patience f.answers
    → Delivers p rest f.answers (5 + length p.payload) (read_packet true f)
read_packet-frame p rest f h e enough =
    subst
      (λ st.
        Delivers p rest f.answers (5 + length p.payload)
          (read_packet true (record { answers = f.answers; stream = st })))
      (sym e) (read_packet-serialize p.type p.payload rest f.answers h.0 h.1 enough)

read_packet-nothing : (valid : Bool) (f : Feed) → f.stream ≡ [] → (read_packet valid f).0 ≡ none
read_packet-nothing valid f e =
    subst (λ st. (read_packet valid (record { answers = f.answers; stream = st })).0 ≡ none) (sym e)
      (read_packet-end valid f.answers)

receive_rounds-running :
    (n : ℕ) (f : Feed) (c : ChatClient)
    → c.running ≡ true
    → is_valid c.socket ≡ true
    → receive_rounds (suc n) f c
      ≡ after_read (read_packet true f).0 (receive_rounds n (read_packet true f).1) c
unfolding receive_rounds
receive_rounds-running n f c run valid = ground arith

-- Printing twice is printing once.
ends-print :
    (text : Bytes) (more : Option Bytes) (c : ChatClient)
    → ends more (print text c)
      ≡ ends (elim more [ none ↦ none | some rest ↦ some (text ++ rest) ]) c
ends-print text none c = refl
ends-print text (some rest) c =
    ap (λ b. some (lose_connection (record c { printed = b }))) (append_assoc c.printed text rest)

after_read-shown :
    (p : RawPacket) (next : ChatClient → Option ChatClient) (c : ChatClient) (more : Option Bytes)
    → ((text : Bytes) → next (print text c) ≡ ends more (print text c))
    → after_read (some p) next c
      ≡ ends
          (elim (show_packet p.type p.payload) [
            | none ↦ none
            | some text ↦ elim more [ none ↦ none | some rest ↦ some (text ++ rest) ]
          ])
          c
unfolding after_read
after_read-shown p next c more h = elim (Option-cases (show_packet p.type p.payload)) [
  | inl e ↦ rw (e, after_read, handle_packet) refl
  | inr (text, e) ↦ rw (e, after_read, handle_packet) (h text ∙ ends-print text more c)
]

receive_rounds-frames :
    (n : ℕ) (ps : List RawPacket) (f : Feed) (c : ChatClient)
    → c.running ≡ true
    → is_valid c.socket ≡ true
    → All IsSendable ps
    → f.stream ≡ frames ps
    → length (frames ps) ≤ patience f.answers
    → length ps < n
    → receive_rounds n f c ≡ ends (shown ps) c
receive_rounds-frames zero ps f c run valid h e enough fuel = elim fuel [ ]
receive_rounds-frames (suc n) [] f c run valid h e enough fuel =
    receive_rounds-running n f c run valid
    ∙ (rw (read_packet-nothing true f e) (
        unfold after_read in
        ap (λ b. some (lose_connection (record c { printed = b }))) (sym (append-nil c.printed))))
receive_rounds-frames (suc n) (p ∷ ps) f c run valid h e enough fuel =
    let cost = length-serialize p h.0 in
    let total = length-append (serialize p.type p.payload) (frames ps) in
    let d = read_packet-frame p (frames ps) f h.0 e (omega (arith, cost, total)) in
    receive_rounds-running n f c run valid
    ∙ rw d.packet (
        after_read-shown p _ c (shown ps) (λ text.
          receive_rounds-frames n ps (read_packet true f).1 (print text c) run valid h.1 d.leaves
            (omega (arith, d.answers_left, cost, total)) (omega arith)))

length-frames-le : (ps : List RawPacket) → All IsSendable ps → length ps ≤ length (frames ps)
length-frames-le [] h = omega arith
length-frames-le (p ∷ ps) h = omega (
  arith,
  length-serialize p h.0,
  length-append (serialize p.type p.payload) (frames ps),
  length-frames-le ps h.1,
)

-- A running client with a valid socket that is sent any packets of named types within the size limit,
-- and is moved all their bytes, shows each of them, in order and however the system cuts the stream
-- up, and then that the connection is lost;
-- it crashes exactly when showing one of them reads past the end of its fields.
pub receive_loop-frames :
    (ps : List RawPacket) (a : Answers) (c : ChatClient)
    → c.running ≡ true
    → is_valid c.socket ≡ true
    → All IsSendable ps
    → length (frames ps) ≤ patience a
    → receive_loop (record { answers = a; stream = frames ps }) c ≡ ends (shown ps) c
unfolding receive_loop
receive_loop-frames ps a c run valid h enough =
    receive_rounds-frames _ ps _ c run valid h refl enough (omega (arith, length-frames-le ps h))
