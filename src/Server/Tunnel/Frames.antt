-- ===== src/Server/Tunnel/Frames.antt =====
-- The frames of a tunnel, from the agent to the load balancer.
use anywhere_mesh.Base.{
  ℕ, Text, codes, get, insert, remove, text_beq, get-insert_self, get-remove_self, map, Option,
  none, some, true, List, [], ◌∷◌, ◌++◌, nat_eq, text_eq, ◌≡◌, refl, ap, sym, ◌∙◌,
}
use mathlib.Core.List.{append_assoc, append-nil}
use anywhere_mesh.Common.Types.{Uuid}
use anywhere_mesh.Server.Channels.{Sender, Channel, ChannelsOf, send, queued}
use anywhere_mesh.Server.Libraries.{Libraries}
use anywhere_mesh.Server.Tunnel.{
  WsSession, AlbOutboundFrame, text, binary, close, Tunnels, frame_of, send_frame,
  handle_ws_proxy_data_from_agent, handle_ws_proxy_close_from_agent,
}

-- The channel with more at its end.
abbrev pub extended : {M : Type 0} → Channel M → List M → Channel M
extended c ms = record c { queue = c.queue ++ ms }

pub send_open :
    {M : Type 0} (tx : Sender) (m : M) (channels : ChannelsOf M) (c : Channel M)
    → get tx channels ≡ some c
    → c.receiver_alive ≡ true
    → send tx m channels ≡ some (insert tx (extended c (m ∷ [])) channels)
unfolding send
send_open tx m channels c found alive = rw (found, send) (rw alive)

pub extended_twice :
    {M : Type 0} (c : Channel M) (m : M) (ms : List M)
    → extended (extended c (m ∷ [])) ms ≡ extended c (m ∷ ms)
extended_twice c m ms = ap (λ q. record c { queue = q }) (append_assoc c.queue (m ∷ []) ms)

-- What a channel that was idle holds when more was queued.
pub queued-extended :
    {M : Type 0} (tx : Sender) (channels : ChannelsOf M) (c : Channel M) (ms : List M)
    → get tx channels ≡ some (extended c ms)
    → c.queue ≡ []
    → queued tx channels ≡ ms
unfolding queued
queued-extended tx channels c ms found idle = rw (found, queued) (rw idle refl)

-- What an agent reads from the service's WebSocket.
pub data Frame : Type 0 where
  text_frame : Text → Frame
  binary_frame : List ℕ → Frame

abbrev pub outbound : Frame → AlbOutboundFrame
outbound (text_frame s) = text s
outbound (binary_frame b) = binary b

module _ (lib : Libraries) (session_id : Uuid) where
  -- The message of a frame: a binary one is encoded in base64.
  unfoldable pub receive_frame : Frame → Tunnels → Tunnels
  receive_frame (text_frame s) t =
      handle_ws_proxy_data_from_agent lib session_id (codes "text") (some s) t
  receive_frame (binary_frame b) t =
      handle_ws_proxy_data_from_agent lib session_id (codes "binary") (some (lib.encode b)) t

  unfoldable pub receive_frames : List Frame → Tunnels → Tunnels
  receive_frames [] t = t
  receive_frames (f ∷ fs) t = receive_frames fs (receive_frame f t)

  pub data_frame :
      (frame_type payload : Text) (frame : AlbOutboundFrame) (t : Tunnels) (sess : WsSession)
      (c : Channel AlbOutboundFrame)
      → frame_of lib frame_type (some payload) ≡ some frame
      → get session_id t.ws_sessions ≡ some sess
      → get sess.alb_out_tx t.frames ≡ some c
      → c.receiver_alive ≡ true
      → handle_ws_proxy_data_from_agent lib session_id frame_type (some payload) t
        ≡ record t { frames = insert sess.alb_out_tx (extended c (frame ∷ [])) t.frames }
  unfolding handle_ws_proxy_data_from_agent send_frame
  data_frame frame_type payload frame t sess c is_frame known found alive =
      rw (known, handle_ws_proxy_data_from_agent)
        (rw is_frame (rw (send_open sess.alb_out_tx frame t.frames c found alive, send_frame)))

  receive_one :
      (f : Frame) (t : Tunnels) (sess : WsSession) (c : Channel AlbOutboundFrame)
      → ((b : List ℕ) → lib.decode (lib.encode b) ≡ some b)
      → get session_id t.ws_sessions ≡ some sess
      → get sess.alb_out_tx t.frames ≡ some c
      → c.receiver_alive ≡ true
      → receive_frame f t
        ≡ record t { frames = insert sess.alb_out_tx (extended c (outbound f ∷ [])) t.frames }
  unfolding receive_frame frame_of text_beq
  receive_one (text_frame s) t sess c decodes known found alive =
      data_frame (codes "text") s (text s) t sess c refl known found alive
  receive_one (binary_frame b) t sess c decodes known found alive =
      data_frame (codes "binary") (lib.encode b) (binary b) t sess c (rw (decodes b) refl) known
        found alive

  -- The frames that an agent sends for a session arrive in the session's channel, each as it was
  -- and in their order, if the session is known, its channel is open, and base64 decodes what it
  -- encoded. No session changes.
  pub receive_frames_lem :
      (fs : List Frame) (t : Tunnels) (sess : WsSession) (c : Channel AlbOutboundFrame)
      → ((b : List ℕ) → lib.decode (lib.encode b) ≡ some b)
      → get session_id t.ws_sessions ≡ some sess
      → get sess.alb_out_tx t.frames ≡ some c
      → c.receiver_alive ≡ true
      → (get sess.alb_out_tx (receive_frames fs t).frames ≡ some (extended c (map outbound fs)))
        × ((receive_frames fs t).ws_sessions ≡ t.ws_sessions)
  unfolding receive_frames
  receive_frames_lem [] t sess c decodes known found alive =
      (found ∙ ap (λ q. some (record c { queue = q })) (sym (append-nil c.queue)), refl)
  receive_frames_lem (f ∷ fs) t sess c decodes known found alive =
      let next : Tunnels = record t {
        frames = insert sess.alb_out_tx (extended c (outbound f ∷ [])) t.frames;
      } in
      let (all, same) =
        receive_frames_lem fs next sess (extended c (outbound f ∷ [])) decodes known
          (get-insert_self sess.alb_out_tx (extended c (outbound f ∷ [])) t.frames) alive in
      rw (receive_one f t sess c decodes known found alive, receive_frames)
        (all ∙ ap (λ d. some d) (extended_twice c (outbound f) (map outbound fs)), same)

  receive_unknown :
      (fs : List Frame) (t : Tunnels)
      → get session_id t.ws_sessions ≡ none
      → receive_frames fs t ≡ t
  unfolding receive_frames receive_frame handle_ws_proxy_data_from_agent
  receive_unknown [] t missing = refl
  receive_unknown (text_frame s ∷ fs) t missing =
      rw (missing, handle_ws_proxy_data_from_agent) (receive_unknown fs t missing)
  receive_unknown (binary_frame b ∷ fs) t missing =
      rw (missing, handle_ws_proxy_data_from_agent) (receive_unknown fs t missing)

  -- A close of the agent ends a known session with an open channel: the close frame is the last in
  -- the channel, the session is gone, and frames that arrive later change nothing.
  pub handle_ws_proxy_close_from_agent_lem :
      (code : Option ℕ) (reason : Option Text) (fs : List Frame) (t : Tunnels) (sess : WsSession)
      (c : Channel AlbOutboundFrame)
      → get session_id t.ws_sessions ≡ some sess
      → get sess.alb_out_tx t.frames ≡ some c
      → c.receiver_alive ≡ true
      → let after = handle_ws_proxy_close_from_agent session_id code reason t in
        (get sess.alb_out_tx after.frames ≡ some (extended c (close code reason ∷ [])))
        × (get session_id after.ws_sessions ≡ none)
        × (receive_frames fs after ≡ after)
  unfolding handle_ws_proxy_close_from_agent send_frame
  handle_ws_proxy_close_from_agent_lem code reason fs t sess c known found alive =
      let closed : Tunnels = record t {
        ws_sessions = remove session_id t.ws_sessions;
        frames = insert sess.alb_out_tx (extended c (close code reason ∷ [])) t.frames;
      } in
      let gone = get-remove_self session_id t.ws_sessions in
      rw (known, handle_ws_proxy_close_from_agent)
        (rw (send_open sess.alb_out_tx (close code reason) t.frames c found alive, send_frame)
          (
            get-insert_self sess.alb_out_tx (extended c (close code reason ∷ [])) t.frames,
            gone,
            receive_unknown fs closed gone,
          ))
