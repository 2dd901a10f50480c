-- ===== src/Networking/Receiving.antt =====
-- What a receive loop takes off the stream.
use Prim.Native.Nat.{min}
use distributed_chat_system.Prelude.{
  ℕ, zero, suc, ◌+◌, ◌-◌, ◌≤◌, ◌≡◌, refl, ap, ◌∙◌, true, [], ◌∷◌, ◌++◌, arith, length, take, drop,
  length-take, length-drop, take-append-drop,
}
use distributed_chat_system.Text.{Bytes}
use distributed_chat_system.Networking.{
  Answers, Received, fails, would_block, moves, patience, recv_loop, recv_all,
}

-- The result of a successful loop for the first `length want` bytes of a stream.
pub record Reads (want rest : Bytes) (a : Answers) (r : Received) : Type 0 where
  pub succeeds : r.ok ≡ true
  pub exact : r.got ≡ want
  pub leaves : r.feed.stream ≡ rest
  pub answers_left : patience a ≤ patience r.feed.answers + length want

take-append_short : (m : ℕ) (xs ys : Bytes) → m ≤ length xs → take m (xs ++ ys) ≡ take m xs
take-append_short zero xs ys h = refl
take-append_short (suc m) [] ys h = absurd (omega arith)
take-append_short (suc m) (x ∷ xs) ys h = ap (◌∷◌ x) (take-append_short m xs ys (omega arith))

drop-append_short : (m : ℕ) (xs ys : Bytes) → m ≤ length xs → drop m (xs ++ ys) ≡ drop m xs ++ ys
drop-append_short zero xs ys h = refl
drop-append_short (suc m) [] ys h = absurd (omega arith)
drop-append_short (suc m) (x ∷ xs) ys h = drop-append_short m xs ys (omega arith)

-- However the system cuts the stream up, the loop for n bytes takes exactly the next n.
pub recv_loop-Reads :
    (a : Answers) (want rest : Bytes)
    → length want ≤ patience a
    → Reads want rest a (recv_loop true a (want ++ rest) (length want))
unfolding recv_loop
recv_loop-Reads fails [] rest h = record {
  succeeds = refl;
  exact = refl;
  leaves = refl;
  answers_left = omega arith;
}
recv_loop-Reads fails (c ∷ want) rest h = absurd (omega arith)
recv_loop-Reads (would_block a) [] rest h = record {
  succeeds = refl;
  exact = refl;
  leaves = refl;
  answers_left = omega arith;
}
recv_loop-Reads (would_block a) (c ∷ want) rest h =
    let r = recv_loop-Reads a (c ∷ want) rest h in
    record {
      succeeds = r.succeeds;
      exact = r.exact;
      leaves = r.leaves;
      answers_left = r.answers_left;
    }
recv_loop-Reads (moves k a) [] rest h = record {
  succeeds = refl;
  exact = refl;
  leaves = refl;
  answers_left = omega arith;
}
recv_loop-Reads (moves k a) (c ∷ want) rest h =
    let m = min k (length want) in
    let m-le : m ≤ length want = omega arith in
    let left : length want - length (take m want) ≡ length (drop m want) =
      omega (arith, length-take m want, length-drop m want) in
    let r = recv_loop-Reads a (drop m want) rest (omega (arith, length-drop m want, h)) in
    rw (take-append_short m want rest m-le, drop-append_short m want rest m-le, left)
      (record {
        succeeds = r.succeeds;
        exact = ap (◌∷◌ c) (ap (◌++◌ (take m want)) r.exact ∙ take-append-drop m want);
        leaves = r.leaves;
        answers_left = omega (arith, r.answers_left, length-drop m want);
      })

-- However the system cuts the stream up and however often it would block, RecvAll for n bytes
-- takes exactly the next n and leaves the rest, as soon as the system delivers that many.
pub recv_all-Reads :
    (a : Answers) (want rest : Bytes)
    → length want ≤ patience a
    → Reads want rest a
        (recv_all true (record { answers = a; stream = want ++ rest }) (length want))
unfolding recv_all
recv_all-Reads a want rest h = recv_loop-Reads a want rest h
