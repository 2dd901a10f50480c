-- ===== src/Client/Endings.antt =====
-- How a client ends: by its user, or because the connection is lost.
use distributed_chat_system.Prelude.{◌≤◌, ◌≡◌, ap, ◌∙◌, true, some, List, length, All, arith}
use distributed_chat_system.Text.{Bytes}
use distributed_chat_system.Networking.{Answers, patience, is_valid}
use distributed_chat_system.Protocol.{RawPacket}
use distributed_chat_system.Client.{ChatClient, disconnect, print, lose_connection, receive_loop}
use distributed_chat_system.Client.Display.{frames, IsSendable, shown, ends, receive_loop-frames}

after_loss :
    (text : Bytes) (c : ChatClient)
    → c.running ≡ true
    → disconnect (lose_connection (print text c)) ≡ lose_connection (print text c)
unfolding disconnect lose_connection
after_loss text c run = ground arith

-- A running client with a valid socket whose server goes away after any packets that the client can
-- show, of named types, within the size limit and moved whole, shows them and the loss; a Disconnect after that, the
-- destructor's too, does nothing: it neither closes the socket nor joins the receive thread.
pub loss_leaves_thread :
    (ps : List RawPacket) (text : Bytes) (a : Answers) (c : ChatClient)
    → c.running ≡ true
    → c.has_thread ≡ true
    → is_valid c.socket ≡ true
    → All IsSendable ps
    → length (frames ps) ≤ patience a
    → shown ps ≡ some text
    → let d = lose_connection (print text c) in
      (receive_loop (record { answers = a; stream = frames ps }) c ≡ some d)
      × (disconnect d ≡ d)
      × ((disconnect d).has_thread ≡ true)
      × ((disconnect d).socket ≡ c.socket)
loss_leaves_thread ps text a c run thread valid h enough e =
    let same = after_loss text c run in
    (
      receive_loop-frames ps a c run valid h enough ∙ ap (λ o. ends o c) e,
      same,
      ap (λ (x : ChatClient). x.has_thread) same
          ∙ (unfold lose_connection in ground (arith, thread)),
      ap (λ (x : ChatClient). x.socket) same ∙ (unfold lose_connection in ground arith),
    )
