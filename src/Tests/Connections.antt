-- ===== src/Tests/Connections.antt =====
-- Runs of connections, server/tcp.c.
use moc.Shared.{ℕ, ◌≡◌, refl, true, some, [], ◌∷◌, ◌++◌, Bytes, arith, be32}
use moc.Server.Tcp.{TcpSocket, totaltoget, process_buf, receive, tcp_newconnection}
use moc.Server.Tcp.Decode.{Decodes, partial, frame, frames}
use moc.Server.Tcp.Unwrap.{deliver, Holds, After, process_buf-After}
use moc.Server.Tcp.Stream.{Received, receive-Received}
use moc.Server.Tcp.Frames.{receive-frames}
use moc.Server.Reply.{takes, would_block, rep_send}
use moc.Server.Reply.Sends.{rep_send_whole}
use moc.Tests.{counting, five, bytes_of}

-- Two bytes of the next message.
abbrev begun : Bytes
begun = 0 ∷ 0 ∷ []

begun-Decodes : Decodes begun [] (partial begun)
unfolding totaltoget
begun-Decodes = (refl, (4, refl, omega arith))

receive-frames_example :
    (c' : TcpSocket) × (receive counting
        (bytes_of 20)
        (frames (five ∷ five ∷ []) ++ begun)
        (tcp_newconnection 5)
        0
      ≡ some (c', (deliver counting (five ∷ five ∷ []) 1 0).world, []))
    × Holds c' begun
    × (c'.refcount ≡ (deliver counting (five ∷ five ∷ []) 1 0).refs)
unfolding deliver frames frame be32
receive-frames_example =
    receive-frames counting 5 (five ∷ five ∷ []) begun (bytes_of 20) 0
      ((omega arith, omega arith), ((omega arith, omega arith), tt)) begun-Decodes refl
      (omega arith)

receive-Received_example :
    Received counting (tcp_newconnection 5) [] 0 (bytes_of 20) (frames (five ∷ []) ++ begun)
unfolding tcp_newconnection
receive-Received_example =
    receive-Received counting (bytes_of 20) (frames (five ∷ []) ++ begun) (tcp_newconnection 5) [] 0
      (refl, refl) refl

process_buf-After_example :
    (out : TcpSocket × ℕ) × (process_buf counting 3 true (tcp_newconnection 5) begun 0 ≡ some out)
    × After counting (tcp_newconnection 5) true 1 0 (partial begun) out
unfolding tcp_newconnection deliver
process_buf-After_example =
    process_buf-After counting 3 (tcp_newconnection 5) 0 (0 ∷ []) 0 [] (partial begun) refl
      begun-Decodes (omega arith)

rep_send_whole_example :
    rep_send
      (takes 2 ∷ would_block ∷ takes 1 ∷ takes 9 ∷ takes 1 ∷ takes 1 ∷ [])
      (record { id = 0 ∷ 0 ∷ 0 ∷ 7 ∷ []; cmd = 0; flags = 0 })
      five
    ≡ some (true, five)
rep_send_whole_example =
    rep_send_whole (takes 2 ∷ would_block ∷ takes 1 ∷ takes 9 ∷ takes 1 ∷ takes 1 ∷ [])
      (record { id = 0 ∷ 0 ∷ 0 ∷ 7 ∷ []; cmd = 0; flags = 0 }) five tt
