-- ===== src/Server/Loops/Overtaking.antt =====
-- Two notices of one server in the hands of two workers.
use distributed_chat_system.Prelude.{
  ℕ, ◌≤◌, ◌≡◌, ap, ◌∙◌, true, false, none, some, List, [], ◌∷◌, arith, for_each, ltb, length, ◌++◌,
  if◌then◌else◌,
}
use distributed_chat_system.Text.{Bytes, bytes_discrete}
use distributed_chat_system.Text.Decimal.{IsInt}
use distributed_chat_system.Dict.{lookup-insert, lookup-erase}
use distributed_chat_system.Protocol.{s2s_replicate_user}
use distributed_chat_system.Protocol.Fields.{IsNulFree}
use distributed_chat_system.Server.Users.{register_user, unregister_user}
use distributed_chat_system.Server.Users.Refinement.{location}
use distributed_chat_system.Server.State.{ChatServer}
use distributed_chat_system.Server.State.Texts.{zero_text, one_text}
use distributed_chat_system.Server.Replication.{notice}
use distributed_chat_system.Server.Peers.{handle_server_packet, dispatch_server}
use distributed_chat_system.Server.Peers.Sync.{handle_s2s_replicate_user-notice}
use distributed_chat_system.Server.Heartbeat.Timeouts.{heard}
use distributed_chat_system.Server.Events.{Task, peer_task, run_task, Engine}
use distributed_chat_system.Server.Events.Workers.{engine_of}
use distributed_chat_system.Server.Loops.{
  Turn, takes_task, finishes, turn, run_server, take_task, finish_task, pick,
}

-- What server `a` tells the peer that has it at node `n`: a user came, or went.
abbrev pub came : ℕ → Bytes → ChatServer → Task
came n name a = peer_task n (record { type = s2s_replicate_user; payload = notice name one_text a })

abbrev pub went : ℕ → Bytes → ChatServer → Task
went n name a =
    peer_task n (record { type = s2s_replicate_user; payload = notice name zero_text a })

came-location :
    (n : ℕ) (name : Bytes) (a s : ChatServer)
    → IsNulFree name
    → IsInt a.server_id
    → location (run_task (came n name a) s).users name ≡ some a.server_id
unfolding run_task handle_server_packet dispatch_server
came-location n name a s h int =
    ap (λ u. location u name) (handle_s2s_replicate_user-notice name true a (heard n s) h int).users
    ∙ (unfold register_user in
        ground (arith, lookup-insert bytes_discrete name name a.server_id s.users.user_locations))

went-location :
    (n : ℕ) (name : Bytes) (a s : ChatServer)
    → IsNulFree name
    → IsInt a.server_id
    → location (run_task (went n name a) s).users name ≡ none
unfolding run_task handle_server_packet dispatch_server
went-location n name a s h int =
    ap (λ u. location u name)
      (handle_s2s_replicate_user-notice name false a (heard n s) h int).users
    ∙ (unfold unregister_user in
        ground (arith, lookup-erase bytes_discrete name name s.users.user_locations))

-- Two workers take two tasks, and end them in order, or the other way round.
abbrev pub in_order : List Turn
in_order = takes_task ∷ takes_task ∷ finishes 0 ∷ finishes 0 ∷ []

abbrev pub overtaken : List Turn
overtaken = takes_task ∷ takes_task ∷ finishes 1 ∷ finishes 0 ∷ []

take_one :
    (t : Task) (rest : List Task) (e : Engine)
    → ltb (length e.held) e.threads ≡ true
    → take_task (t ∷ rest) e ≡ record e { tasks = rest; held = e.held ++ t ∷ [] }
unfolding take_task
take_one t rest e room =
    ap (λ b. if b then record e { tasks = rest; held = e.held ++ t ∷ [] } else e) room

both_taken :
    (t u : Task) (threads : ℕ) (s : ChatServer)
    → 2 ≤ threads
    → turn takes_task (turn takes_task (engine_of threads s (t ∷ u ∷ []) []))
      ≡ engine_of threads s [] (t ∷ u ∷ [])
unfolding turn
both_taken t u threads s two =
    ap (turn takes_task) (take_one t (u ∷ []) (engine_of threads s (t ∷ u ∷ []) []) (ground arith))
    ∙ take_one u [] (engine_of threads s (u ∷ []) (t ∷ [])) (ground arith)

two_in_order :
    (t u : Task) (threads : ℕ) (s : ChatServer)
    → 2 ≤ threads
    → (run_server in_order (engine_of threads s (t ∷ u ∷ []) [])).server ≡ run_task u (run_task t s)
unfolding run_server turn for_each finish_task pick
two_in_order t u threads s two =
    ap (λ e. (finish_task 0 (finish_task 0 e)).server) (both_taken t u threads s two)

two_overtaken :
    (t u : Task) (threads : ℕ) (s : ChatServer)
    → 2 ≤ threads
    → (run_server overtaken (engine_of threads s (t ∷ u ∷ []) [])).server
      ≡ run_task t (run_task u s)
unfolding run_server turn for_each finish_task pick
two_overtaken t u threads s two =
    ap (λ e. (finish_task 0 (finish_task 1 e)).server) (both_taken t u threads s two)

-- A peer tells a server that a user came, and then that the user went; the listener enqueues both.
-- If the pool has two threads or more, the order in which its workers end the two tasks decides
-- whether the server has the user: ended in order they leave the user offline, and if the second
-- overtakes the first, the user who left stays online at the peer. The name has no NUL, and the
-- peer's id is an int.
pub notices_overtake :
    (n threads : ℕ) (name : Bytes) (a s : ChatServer)
    → 2 ≤ threads
    → IsNulFree name
    → IsInt a.server_id
    → let e = engine_of threads s (came n name a ∷ went n name a ∷ []) [] in
      (location (run_server in_order e).server.users name ≡ none)
      × (location (run_server overtaken e).server.users name ≡ some a.server_id)
notices_overtake n threads name a s two h int =
    let t = came n name a in
    let u = went n name a in
    (
      ap (λ x. location x.users name) (two_in_order t u threads s two)
          ∙ went-location n name a (run_task t s) h int,
      ap (λ x. location x.users name) (two_overtaken t u threads s two)
          ∙ came-location n name a (run_task u s) h int,
    )
