-- ===== src/Tests/Conversations.antt =====
-- Examples for a conversation (src/asyd/asyd.c) and the dispatcher (src/asyd/core/dispatcher.c).
use asys.Base.{ℕ, ◌≤◌, ◌≡◌, refl, inl, List, [], ◌∷◌, ◌++◌, append-nil, length, arith}
use asys.Apdu.{zero_parser}
use asys.Apdu.Codec.{Message, IsMessage, encode, frame_of}
use asys.Noise.{zero_state}
use asys.Noise.Stream.{Paired, seal_all}
use asys.Dispatcher.{dispatch}
use asys.Dispatcher.Sizes.{dispatch_fits}
use asys.Dispatcher.Locality.{request, dispatch_local}
use asys.Session.{Conn}
use asys.Session.Receive.{joined, IsOpen}
use asys.Session.Wire.{wire}
use asys.Session.Service.{Ready}
use asys.Session.Conversation.{Job, AreRequests, encoded}
use asys.Tests.Toy.{toy, handlers, installed, count_up}
use asys.Tests.Frames.{query, query-IsMessage}
use asys.Tests.Requests.{io, world}
use asys.Tests.Sessions.{client, server, server-Paired, pass, conn, conn-IsConn}

-- The agent polls a task, and then greets.
abbrev pub hello : Message
hello = record query { ins = 0x01; body = []; le = 18 }

hello-IsMessage : IsMessage hello
hello-IsMessage = record {
  sec_range = omega arith;
  body_size = omega arith;
  le_size = omega arith;
  tag_size = refl;
}

abbrev pub jobs : List Job
jobs = (pass, query) ∷ (pass, hello) ∷ []

-- Both packets come in one chunk.
abbrev chunk : List ℕ
chunk = wire (seal_all toy client (encoded jobs))

abbrev chat : Conn
chat = record conn { socket = chunk ∷ [] }

client-Paired : Paired toy client server
unfolding zero_state
client-Paired = record { key = refl; nonce = refl; sender_done = refl; receiver_done = refl }

chat-IsOpen : IsOpen chat.socket
unfolding wire seal_all
chat-IsOpen = (omega arith, tt)

chat-Ready : Ready toy handlers client client chat
unfolding zero_parser
chat-Ready = record {
  parser = conn-IsConn.parser;
  empty = refl;
  requests = client-Paired;
  replies = server-Paired;
  is_open = chat-IsOpen;
}

chat_brings : joined chat.socket ≡ chunk
unfolding joined
chat_brings = append-nil chunk

pub jobs-AreRequests : (key epoch : List ℕ) (last : ℕ) → AreRequests toy key epoch last jobs
unfolding AreRequests encode
jobs-AreRequests key epoch last = (
  (query-IsMessage, omega arith, refl, refl, inl refl),
  ((hello-IsMessage, omega arith, refl, refl, inl refl), tt),
)

dispatch_fits_example :
    let n = length (dispatch handlers io world (request (encode query) (frame_of query)) 6 5).0 in
    (2 ≤ n) × (n ≤ 6)
dispatch_fits_example =
    dispatch_fits count_up handlers installed io world (request (encode query) (frame_of query)) 6 5
      (omega arith)

-- The same request with other bytes behind it.
dispatch_local_example :
    dispatch handlers io world (request (encode query ++ 7 ∷ 8 ∷ []) (frame_of query)) 256 5
    ≡ dispatch handlers io world (request (encode query) (frame_of query)) 256 5
unfolding encode
dispatch_local_example =
    dispatch_local count_up handlers installed io world (frame_of query)
      (encode query ++ 7 ∷ 8 ∷ []) (encode query) 256 5 refl
