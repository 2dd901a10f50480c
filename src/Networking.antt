-- ===== src/Networking.antt =====
-- core/networking: the TCP socket, and the loops that send and receive a whole buffer.
-- What the operating system answers to the calls is an argument of each operation.
pub mod Sending
pub mod Receiving
pub mod Winsock
pub mod Taking
use distributed_chat_system.Prelude.{
  ℕ, zero, suc, ◌-◌, ◌^◌, Bool, true, false, List, [], ◌∷◌, ◌++◌, if◌then◌else◌, ◌==◌, length, take,
  drop, not, Option, none, some, ℤ, negsuc,
}
use Prim.Native.Nat.{min}
use distributed_chat_system.Text.{Bytes}

-- INVALID_SOCKET
abbrev pub invalid_socket : ℕ
invalid_socket = 2 ^ 64 - 1

pub record TcpSocket : Type 0 where
  pub handle : ℕ
  pub is_closed : Bool

-- TcpSocket() with the handle that `socket` returned, and TcpSocket(s).
abbrev pub new_socket : ℕ → TcpSocket
new_socket h = record { handle = h; is_closed = false }

abbrev pub is_valid : TcpSocket → Bool
is_valid k = not (k.handle == invalid_socket)

-- The handle that is given back to the system by closesocket, if any, beside the new state.
unfoldable pub close : TcpSocket → TcpSocket × Option ℕ
close k =
    if k.is_closed
    then (k, none)
    else if k.handle == invalid_socket
    then (record k { is_closed = true }, none)
    else (record { handle = invalid_socket; is_closed = true }, some k.handle)

-- `bound` and `listening` say whether the system's call succeeded.
unfoldable pub bind : TcpSocket → Bool → Bool
bind k bound = if k.handle == invalid_socket then false else bound

unfoldable pub listen : TcpSocket → Bool → Bool
listen k listening = if k.handle == invalid_socket then false else listening

-- `incoming` is the handle that the system's accept returned.
unfoldable pub accept : TcpSocket → ℕ → Option TcpSocket
accept k incoming =
    if k.handle == invalid_socket
    then none
    else if incoming == invalid_socket
    then none
    else some (new_socket incoming)

-- The loop over the resolved addresses stops at the first that connects.
unfoldable pub connect_first : List Bool → Bool
connect_first [] = false
connect_first (true ∷ rest) = true
connect_first (false ∷ rest) = connect_first rest

-- `none` is a failure of getaddrinfo; otherwise the answers of `connect`, one for each address.
unfoldable pub connect : TcpSocket → Option (List Bool) → Bool
unfolding connect_first
connect k resolved =
    if k.handle == invalid_socket
    then false
    else elim resolved [ none ↦ false | some tries ↦ connect_first tries ]

-- `answer` is what the system's `send` returns for a handle and a buffer.
unfoldable pub send : TcpSocket → Bytes → (ℕ → Bytes → ℤ) → ℤ
send k buf answer = if k.handle == invalid_socket then negsuc 0 else answer k.handle buf

-- `answer` is what the system's `recv` returns for a handle and a length, and the bytes it gives.
unfoldable pub recv : TcpSocket → ℤ → (ℕ → ℤ → ℤ × Bytes) → ℤ × Bytes
recv k len answer = if k.handle == invalid_socket then (negsuc 0, []) else answer k.handle len

-- The answers to the rounds of a loop over `send` or `recv`: the call moves up to n + 1 bytes, or
-- returns SOCKET_ERROR with WSAEWOULDBLOCK, or fails for good. So no loop blocks for ever.
pub data Answers : Type 0 where
  fails : Answers
  would_block : Answers → Answers
  moves : ℕ → Answers → Answers

-- The bytes that the answers let through at the least.
abbrev pub patience : Answers → ℕ
patience fails = 0
patience (would_block a) = patience a
patience (moves n a) = suc (patience a)

-- The loop of SendAll, and its copies in SendPacket, BroadcastS2S, RoutePrivateMessage,
-- RouteRoomMessage and HeartbeatLoop: its result, and the bytes that the system took. On an
-- invalid handle Send returns -1, and the loop fails unless the last error is WSAEWOULDBLOCK. The
-- source counts in `int`: a buffer is taken to be shorter than 2 ^ 31 bytes.
unfoldable pub send_all : Bool → Answers → Bytes → Bool × Bytes
send_all valid fails [] = (true, [])
send_all valid fails (c ∷ s) = (false, [])
send_all valid (would_block a) [] = (true, [])
send_all valid (would_block a) (c ∷ s) = send_all valid a (c ∷ s)
send_all valid (moves n a) [] = (true, [])
send_all false (moves n a) (c ∷ s) = (false, [])
send_all true (moves n a) (c ∷ s) =
    let (ok, taken) = send_all true a (drop n s) in (ok, c ∷ (take n s ++ taken))

-- A connection's incoming side: the answers to come, and the bytes that the other end has sent.
pub record Feed : Type 0 where
  pub answers : Answers
  pub stream : Bytes

pub record Received : Type 0 where
  pub ok : Bool
  pub got : Bytes
  pub feed : Feed

-- The loop of RecvAll for `left` more bytes. `recv` returns 0 when the stream has ended.
unfoldable pub recv_loop : Bool → Answers → Bytes → ℕ → Received
recv_loop valid fails st zero = record {
  ok = true;
  got = [];
  feed = record { answers = fails; stream = st };
}
recv_loop valid fails st (suc n) = record {
  ok = false;
  got = [];
  feed = record { answers = fails; stream = st };
}
recv_loop valid (would_block a) st zero = record {
  ok = true;
  got = [];
  feed = record { answers = would_block a; stream = st };
}
recv_loop valid (would_block a) st (suc n) = recv_loop valid a st (suc n)
recv_loop valid (moves k a) st zero = record {
  ok = true;
  got = [];
  feed = record { answers = moves k a; stream = st };
}
recv_loop false (moves k a) st (suc n) = record {
  ok = false;
  got = [];
  feed = record { answers = a; stream = st };
}
recv_loop true (moves k a) [] (suc n) = record {
  ok = false;
  got = [];
  feed = record { answers = a; stream = [] };
}
recv_loop true (moves k a) (c ∷ st) (suc n) =
    let chunk = take (min k n) st in
    let r = recv_loop true a (drop (min k n) st) (n - length chunk) in
    record r { got = c ∷ (chunk ++ r.got) }

unfoldable pub recv_all : Bool → Feed → ℕ → Received
unfolding recv_loop
recv_all valid f n = recv_loop valid f.answers f.stream n
