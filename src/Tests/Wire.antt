-- ===== src/Tests/Wire.antt =====
-- The serializer, the socket loops and the text helpers at concrete inputs.
use distributed_chat_system.Prelude.{pos, negsuc, ◌≡◌, refl, [], ◌∷◌, ◌++◌, true, arith, some, none}
use distributed_chat_system.Text.{codes, trim, split}
use distributed_chat_system.Text.Decimal.{to_string, stoi}
use distributed_chat_system.Networking.{Answers, fails, would_block, moves}
use distributed_chat_system.Protocol.{login, serialize, read_packet, pack, unpack}
use distributed_chat_system.Protocol.Fields.{unpack-pack, unpack-eq-split}
use distributed_chat_system.Protocol.Frames.{Delivers, read_packet-serialize}
use distributed_chat_system.Tests.Scene.{alice, bob, hello, lobby}

-- tests/unit/SerializerTest.cpp
unpack_test :
    unpack (pack (codes "Alice" ∷ lobby ∷ codes "hello world" ∷ []))
    ≡ codes "Alice" ∷ lobby ∷ codes "hello world" ∷ []
unfolding unpack pack
unpack_test = refl

serialize_test : serialize login (codes "hi") ≡ 0 ∷ 0 ∷ 0 ∷ 3 ∷ 1 ∷ 104 ∷ 105 ∷ []
unfolding serialize
serialize_test = refl

to_string_test : to_string (negsuc 119) ≡ codes "-120"
unfolding to_string
to_string_test = refl

stoi_test : stoi (codes " +42x") ≡ some (pos 42)
unfolding stoi
stoi_test = refl

stoi_overflow : stoi (codes "2147483648") ≡ none
unfolding stoi
stoi_overflow = refl

trim_test : trim (codes "  a b\n") ≡ codes "a b"
unfolding trim
trim_test = refl

-- One byte at a time, with a pause in the middle.
abbrev slow : Answers
slow = moves 0 (moves 0 (would_block (moves 0 (moves 0 (moves 0 (moves 0 (moves 0 fails)))))))

read_packet-serialize_example :
    Delivers
      (record { type = login; payload = codes "hi" })
      bob
      slow
      7
      (read_packet true (record { answers = slow; stream = serialize login (codes "hi") ++ bob }))
read_packet-serialize_example =
    read_packet-serialize login (codes "hi") bob slow tt (omega arith) (omega arith)

unpack-pack_example : unpack (pack (alice ∷ [] ∷ hello ∷ [])) ≡ alice ∷ [] ∷ hello ∷ []
unpack-pack_example = unpack-pack (alice ∷ [] ∷ hello ∷ []) (omega arith)

unpack-eq-split_example : unpack (97 ∷ 0 ∷ 0 ∷ 98 ∷ []) ≡ split (97 ∷ 0 ∷ 0 ∷ 98 ∷ []) 0
unpack-eq-split_example = unpack-eq-split (97 ∷ 0 ∷ 0 ∷ 98 ∷ [])
