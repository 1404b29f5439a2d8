-- ===== src/Examples/Local.antt =====
-- A session of an agent beside its local service.
use anywhere_mesh.Base.{
  arith, codes, get, nat_eq, ◌≡◌, refl, none, some, true, false, List, [], ◌∷◌,
}
use anywhere_mesh.Server.Channels.{queued}
use anywhere_mesh.Server.Tunnel.Relay.{agent_to_alb, AlbItem, text_item, ping_item, broken_item}
use anywhere_mesh.Server.Tunnel.Frames.{extended}
use anywhere_mesh.Server.Tunnel.Outward.{until_closed}
use anywhere_mesh.Client.Local.{read_local, join_session}
use anywhere_mesh.Client.Local.Upward.{
  alb_frames, alb_messages, all_taken, take_tunnelled, read_local_reaches_alb,
}
use anywhere_mesh.Client.Sessions.{WebSocketReverseProxy, handle_init, handle_close_from_server}
use anywhere_mesh.Client.Local.Ends.{handle_close_from_server_ends}
use anywhere_mesh.Client.Local.Sessions.{read_local-Breaks}
use anywhere_mesh.Examples.{lib, open_channels}
use anywhere_mesh.Examples.Agents.{proxy, session_open}
use anywhere_mesh.Examples.Tunnels.{opened, session, idle, has_session, has_channel}

abbrev items : List AlbItem
items = text_item (codes "hello") ∷ ping_item ∷ broken_item ∷ text_item (codes "late") ∷ []

is_upward : get 1 open_channels ≡ some idle
unfolding get
is_upward = refl

read_local_reaches_alb_example :
    let frames =
      (take_tunnelled lib 50 (queued 1 (read_local lib 50 1 items open_channels)) opened).frames in
    (get 0 frames ≡ some (extended idle (alb_frames (until_closed items))))
    × (agent_to_alb (all_taken (queued 0 frames)) ≡ alb_messages (until_closed items))
unfolding agent_to_alb
read_local_reaches_alb_example =
    read_local_reaches_alb lib 50 session (λ b. refl) 1 items open_channels idle opened idle
      is_upward refl refl has_session has_channel refl

read_local-Breaks_example :
    ((take_tunnelled lib 50 (queued 1 (read_local lib 50 1 items open_channels)) opened).ws_sessions
      ≡ opened.ws_sessions)
    × (join_session 50 3 true false proxy ≡ none)
read_local-Breaks_example =
    read_local-Breaks lib 50 1 3 items open_channels idle opened proxy tt is_upward refl refl
      session_open

handle_close_from_server_ends_example :
    let opened = (handle_init (λ url. none) 60 (codes "/ws") 1 proxy open_channels).0 in
    let closed = handle_close_from_server 60 none none opened in
    (after : WebSocketReverseProxy) × (join_session 60 4 true false closed ≡ some after)
    × (get 60 after.sessions ≡ none)
handle_close_from_server_ends_example =
    handle_close_from_server_ends (λ url. none) 60 (codes "/ws") 1 proxy open_channels none none
      (omega arith, tt) refl
