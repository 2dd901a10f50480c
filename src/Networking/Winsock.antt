-- ===== src/Networking/Winsock.antt =====
-- The reference count that TcpSocket keeps of the Winsock library, and the calls that set a socket
-- up: core/networking/TcpSocket.cpp and SocketUtils.cpp.
use distributed_chat_system.Prelude.{
  ℕ, zero, suc, ◌≡◌, refl, ap, ℤ, ℤ_discrete, pos, negsuc, Bool, true, false, not, Option, ◌++◌,
  if◌then◌else◌, ◌==◌, arith,
}
use distributed_chat_system.Text.{Bytes, codes}
use distributed_chat_system.Text.Decimal.{to_string}
use distributed_chat_system.Networking.{TcpSocket, invalid_socket, close}

-- s_wsaRefCount, and whether the library is started.
pub record Winsock : Type 0 where
  pub wsa_ref_count : ℤ
  pub is_started : Bool

abbrev pub new_winsock : Winsock
new_winsock = record { wsa_ref_count = pos 0; is_started = false }

-- `++` and `--`; the count stays far below the range of `int`.
abbrev succ : ℤ → ℤ
succ (pos n) = pos (suc n)
succ (negsuc zero) = pos 0
succ (negsuc (suc n)) = negsuc n

abbrev pred : ℤ → ℤ
pred (pos zero) = negsuc 0
pred (pos (suc n)) = pos n
pred (negsuc n) = negsuc (suc n)

abbrev is_zero : ℤ → Bool
is_zero (pos n) = n == 0
is_zero (negsuc n) = false

-- `starts` is whether WSAStartup succeeds.
unfoldable pub initialize_winsock : Bool → Winsock → Winsock
initialize_winsock starts w = record {
  wsa_ref_count = succ w.wsa_ref_count;
  is_started = if is_zero w.wsa_ref_count then starts else w.is_started;
}

unfoldable pub cleanup_winsock : Winsock → Winsock
cleanup_winsock w = record {
  wsa_ref_count = pred w.wsa_ref_count;
  is_started = if is_zero (pred w.wsa_ref_count) then false else w.is_started;
}

-- ~TcpSocket: the handle that is given back, if any, beside the new count.
unfoldable pub destroy : TcpSocket → Winsock → Winsock × Option ℕ
destroy k w = (cleanup_winsock w, (close k).1)

-- `err` is what WSAGetLastError returned.
unfoldable pub get_last_error_string : ℤ → Bytes
get_last_error_string err = codes "Socket error code: " ++ to_string err

-- `set` is whether ioctlsocket succeeds.
unfoldable pub set_non_blocking : TcpSocket → Bool → Bool
set_non_blocking k set = if k.handle == invalid_socket then false else set

-- SocketUtils
unfoldable pub is_socket_valid : ℕ → Bool
is_socket_valid s = not (s == invalid_socket)

-- `answer` is what setsockopt returns for a handle and the value of SO_KEEPALIVE.
unfoldable pub set_keep_alive : ℕ → Bool → (ℕ → ℤ → ℤ) → Bool
set_keep_alive s enable answer =
    elim (ℤ_discrete (answer s (if enable then pos 1 else pos 0)) (pos 0)) [
      | yes e ↦ true
      | no e ↦ false
    ]

-- The library and `live` sockets after a history of constructors and destructors, which the mutex
-- puts in an order, where WSAStartup never fails.
pub data Lives : Winsock → ℕ → Type 0 where
  none_yet : Lives new_winsock 0
  born : {w : Winsock} {live : ℕ} → Lives w live → Lives (initialize_winsock true w) (suc live)
  dies : {w : Winsock} {live : ℕ} (k : TcpSocket) → Lives w (suc live) → Lives (destroy k w).0 live

pub record Counts (w : Winsock) (live : ℕ) : Type 0 where
  pub counted : w.wsa_ref_count ≡ pos live
  pub used : w.is_started ≡ not (live == 0)

born-Counts :
    (w : Winsock) (live : ℕ) → Counts w live → Counts (initialize_winsock true w) (suc live)
unfolding initialize_winsock
born-Counts w live h = record {
  counted = ap succ h.counted;
  used = ground (arith, h.counted, h.used);
}

dies-Counts :
    (w : Winsock) (live : ℕ) (k : TcpSocket) → Counts w (suc live) → Counts (destroy k w).0 live
unfolding destroy cleanup_winsock
dies-Counts w live k h = record {
  counted = ap pred h.counted;
  used = ground (arith, ap pred h.counted, h.used);
}

-- Whatever sockets are made and destroyed, while WSAStartup never fails, the reference count is the
-- number of sockets that live, and the library is started exactly as long as there is one.
pub Lives-Counts : {w : Winsock} {live : ℕ} → Lives w live → Counts w live
Lives-Counts none_yet = record { counted = refl; used = refl }
Lives-Counts (born before) = born-Counts _ _ (Lives-Counts before)
Lives-Counts (dies k before) = dies-Counts _ _ k (Lives-Counts before)
