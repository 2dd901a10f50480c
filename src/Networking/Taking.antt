-- ===== src/Networking/Taking.antt =====
-- What a receive loop takes off any stream, whether or not it succeeds.
use Prim.Native.Nat.{min}
use distributed_chat_system.Prelude.{
  ℕ, zero, suc, ◌-◌, ◌≡◌, refl, ap, ◌∙◌, Bool, true, false, [], ◌∷◌, ◌++◌, arith, length, take,
  drop, append_assoc, length-take, length-append, take-append-drop,
}
use distributed_chat_system.Text.{Bytes}
use distributed_chat_system.Networking.{
  Answers, fails, would_block, moves, Feed, Received, recv_loop, recv_all,
}

-- The bytes are the first of the stream, and a success has as many as were asked for.
pub record Takes (st : Bytes) (n : ℕ) (r : Received) : Type 0 where
  pub parts : r.got ++ r.feed.stream ≡ st
  pub whole : r.ok ≡ true → length r.got ≡ n

pub recv_loop-Takes :
    (valid : Bool) (a : Answers) (st : Bytes) (n : ℕ) → Takes st n (recv_loop valid a st n)
unfolding recv_loop
recv_loop-Takes valid fails st zero = record { parts = refl; whole = λ e. refl }
recv_loop-Takes valid fails st (suc n) = record { parts = refl; whole = λ e. cc }
recv_loop-Takes valid (would_block a) st zero = record { parts = refl; whole = λ e. refl }
recv_loop-Takes valid (would_block a) st (suc n) =
    let t = recv_loop-Takes valid a st (suc n) in record { parts = t.parts; whole = t.whole }
recv_loop-Takes valid (moves k a) st zero = record { parts = refl; whole = λ e. refl }
recv_loop-Takes false (moves k a) st (suc n) = record { parts = refl; whole = λ e. cc }
recv_loop-Takes true (moves k a) [] (suc n) = record { parts = refl; whole = λ e. cc }
recv_loop-Takes true (moves k a) (c ∷ st) (suc n) =
    let m = min k n in
    let chunk = take m st in
    let t = recv_loop-Takes true a (drop m st) (n - length chunk) in
    record {
      parts =
          ap (◌∷◌ c)
            (append_assoc chunk _ _ ∙ (ap (λ b. chunk ++ b) t.parts ∙ take-append-drop m st));
      whole = λ e. omega (arith, t.whole e, length-append chunk _, length-take m st);
    }

pub recv_all-Takes : (valid : Bool) (f : Feed) (n : ℕ) → Takes f.stream n (recv_all valid f n)
unfolding recv_all
recv_all-Takes valid f n = recv_loop-Takes valid f.answers f.stream n
