-- ===== src/Networking/Sending.antt =====
-- What a send loop hands to the system.
use distributed_chat_system.Prelude.{
  ℕ, ◌≤◌, ◌<◌, ◌≡◌, refl, ap, sym, ◌∙◌, Bool, true, false, [], ◌∷◌, ◌++◌, arith, append_assoc,
  length, take, drop, length-drop, take-append-drop, none,
}
use distributed_chat_system.Text.{Bytes}
use distributed_chat_system.Networking.{
  Answers, fails, would_block, moves, patience, send_all, TcpSocket, close, invalid_socket,
}

-- Whatever the system answers, the bytes that it took are a beginning of the buffer: all of it if
-- the loop returns true, and a proper part of it if the loop returns false.
pub send_all_exact :
    (valid : Bool) (a : Answers) (s : Bytes)
    → (rest : Bytes) × (s ≡ (send_all valid a s).1 ++ rest)
      × ((send_all valid a s).0 ≡ true → rest ≡ [])
      × ((send_all valid a s).0 ≡ false → 0 < length rest)
unfolding send_all
send_all_exact valid fails [] = ([], refl, λ e. refl, λ e. cc)
send_all_exact valid fails (c ∷ s) = (c ∷ s, refl, λ e. cc, λ e. omega arith)
send_all_exact valid (would_block a) [] = ([], refl, λ e. refl, λ e. cc)
send_all_exact valid (would_block a) (c ∷ s) = send_all_exact valid a (c ∷ s)
send_all_exact valid (moves n a) [] = ([], refl, λ e. refl, λ e. cc)
send_all_exact false (moves n a) (c ∷ s) = (c ∷ s, refl, λ e. cc, λ e. omega arith)
send_all_exact true (moves n a) (c ∷ s) =
    let (rest, e, whole, part) = send_all_exact true a (drop n s) in
    (rest, ap (◌∷◌ c) (joined n s _ rest e), whole, part)
  where
    joined : (n : ℕ) (s t rest : Bytes) → drop n s ≡ t ++ rest → s ≡ (take n s ++ t) ++ rest
    joined n s t rest e =
        sym (take-append-drop n s) ∙ (ap (◌++◌ (take n s)) e ∙ sym (append_assoc (take n s) t rest))

-- The loop ends with the whole buffer sent as soon as the system takes enough bytes, however it
-- cuts the buffer up and however often it would block.
pub send_all_enough :
    (a : Answers) (s : Bytes) → length s ≤ patience a → send_all true a s ≡ (true, s)
unfolding send_all
send_all_enough fails [] h = refl
send_all_enough fails (c ∷ s) h = absurd (omega arith)
send_all_enough (would_block a) [] h = refl
send_all_enough (would_block a) (c ∷ s) h = send_all_enough a (c ∷ s) h
send_all_enough (moves n a) [] h = refl
send_all_enough (moves n a) (c ∷ s) h =
    rw (send_all_enough a (drop n s) (omega (arith, length-drop n s)), take-append-drop n s)

-- Once closed, a socket stays closed and gives no handle back a second time.
pub close_twice :
    (k : TcpSocket)
    → (close (close k).0 ≡ ((close k).0, none))
      × ((close k).0.is_closed ≡ true)
      × (k.is_closed ≡ false → (close k).0.handle ≡ invalid_socket)
unfolding close
close_twice k = ground arith
