-- ===== src/Server/Start/Serve.antt =====
-- mesh/src/server/mod.rs: the service functions of the three servers. hyper calls the one of the port
-- that a request comes to.
use anywhere_mesh.Base.{List, if◌then◌else◌, Text, Option, Bool, false, text_eq}
use anywhere_mesh.Common.Types.{Uuid}
use anywhere_mesh.Server.Channels.{Sender, Channels}
use anywhere_mesh.Server.Service.{Service, Incoming, handle_websocket_stream}
use anywhere_mesh.Server.Dispatcher.{AuthService}
use anywhere_mesh.Server.Libraries.{Libraries}
use anywhere_mesh.Server.Registry.{Registry}
use anywhere_mesh.Server.Router.{DefaultRouter}
use anywhere_mesh.Server.Router.Route.{Reads}
use anywhere_mesh.Server.Http.{HttpRequest}
use anywhere_mesh.Server.Tunnel.{Tunnels}
use anywhere_mesh.Server.Tunnel.Open.{TunnelReads}
use anywhere_mesh.Server.Handlers.{Answered, handle_alb_request}
use anywhere_mesh.Server.Handlers.Pages.{
  Instance, handle_internal_request, handle_websocket_or_health_request,
}
use anywhere_mesh.Server.Start.{ServerTask, alb_server, internal_server, websocket_server}

-- What one call reads of the registry and the environment, and what other tasks do meanwhile.
pub record CallReads (S : Type 0) : Type 0 where
  pub setting : Option Text
  pub tunnel_at : TunnelReads S
  pub at : Reads S
  pub after_send : Tunnels → Tunnels
  pub after_session : Tunnels → Tunnels
  pub meanwhile : DefaultRouter → DefaultRouter
  pub before_cleanup : DefaultRouter → DefaultRouter
  pub new_v4 : Uuid

-- What a call leaves and answers, and whether it spawns a task that waits for an agent's upgrade.
pub record Response : Type 0 where
  pub tunnels : Tunnels
  pub answered : Answered
  pub spawns_upgrade : Bool

module _ {S : Type 0} (lib : Libraries) (registry : Registry S) (self : Instance) where
  unfoldable pub serve :
      ServerTask → CallReads S → HttpRequest → Tunnels → DefaultRouter → Channels → Response
  unfolding handle_internal_request handle_websocket_or_health_request
  serve alb_server call req t r channels =
      let done =
        handle_alb_request lib registry call.setting call.tunnel_at call.at call.after_send
          call.after_session call.meanwhile call.before_cleanup call.new_v4 req t r channels in
      record { tunnels = done.0; answered = done.1; spawns_upgrade = false }
  serve internal_server call req t r channels =
      let response =
        handle_internal_request lib registry self call.at.connections_at call.at.registrations_at
          req in
      record { tunnels = t; answered = (r, channels, response); spawns_upgrade = false }
  serve websocket_server call req t r channels =
      let (response, spawned) =
        handle_websocket_or_health_request lib registry self call.at.connections_at
          call.at.registrations_at req in
      record { tunnels = t; answered = (r, channels, response); spawns_upgrade = spawned }

  -- The task that waits for the upgrade of an agent's connection: a failed upgrade is only logged.
  unfoldable pub after_upgrade :
      AuthService
      → Bool
      → Uuid
      → Sender
      → List (Incoming S)
      → List (Incoming S)
      → Service S
      → Service S
  unfolding handle_websocket_stream
  after_upgrade auth upgraded id tx incoming late sv =
      if upgraded then (handle_websocket_stream lib registry auth id tx incoming late sv).0 else sv
