-- ===== src/Server/Handlers/Pages.antt =====
-- mesh/src/server/handlers/health.rs and websocket.rs: health, metrics, and the agents' port.
use anywhere_mesh.Base.{
  ◌/◌, Text, codes, show_nat, Bool, true, false, [], ◌++◌, ◌==◌, text_eq, if◌then◌else◌, ◌&&◌,
}
use anywhere_mesh.Common.Types.{Uuid, SystemTime, nanos_per_sec}
use anywhere_mesh.Server.Libraries.{Libraries}
use anywhere_mesh.Server.Registry.{Registry}
use anywhere_mesh.Server.Http.{HttpRequest, HttpResponse, plain, typed, upgrade_is_ws, switching}
use anywhere_mesh.Server.Handlers.{count}

-- What the service knows of itself.
pub record Instance : Type 0 where
  pub server_instance_id : Uuid
  -- since the Unix epoch
  pub started_at : SystemTime

module _ {S : Type 0} (lib : Libraries) (registry : Registry S) (self : Instance) where
  -- The numbers of connections and of registrations, as text.
  abbrev pub counted : S → S → Text × Text
  counted connections_at registrations_at = (
    show_nat (count (registry.get_all_connections connections_at)),
    show_nat (count (registry.get_all_registrations registrations_at)),
  )

  -- The fields that both health answers share, with the text between them.
  unfoldable pub health_info : Text → S → S → Text
  health_info port connections_at registrations_at =
      let (connections, registrations) = counted connections_at registrations_at in
      codes "{\"status\":\"healthy\",\"connections\":"
      ++ connections
      ++ codes ",\"registrations\":"
      ++ registrations
      ++ port
      ++ codes ",\"instance_id\":\""
      ++ lib.show_uuid self.server_instance_id
      ++ codes "\",\"started_at\":"
      ++ show_nat (self.started_at / nanos_per_sec)
      ++ codes "}"

  unfoldable pub metrics : S → S → Text
  metrics connections_at registrations_at =
      let (connections, registrations) = counted connections_at registrations_at in
      codes "# HELP connections_total Total number of WebSocket connections\n"
      ++ codes "# TYPE connections_total gauge\nconnections_total "
      ++ connections
      ++ codes "\n# HELP registrations_total Total number of service registrations\n"
      ++ codes "# TYPE registrations_total gauge\nregistrations_total "
      ++ registrations
      ++ codes "\n"

  unfoldable pub handle_internal_request : S → S → HttpRequest → HttpResponse
  handle_internal_request connections_at registrations_at req =
      if req.method == codes "GET" && req.path == codes "/health"
      then typed (codes "application/json") (health_info [] connections_at registrations_at)
      else if req.method == codes "GET" && req.path == codes "/metrics"
      then typed (codes "text/plain") (metrics connections_at registrations_at)
      else plain 404 (codes "Not Found")

  -- With whether a task is spawned that waits for the upgrade of the connection.
  unfoldable pub handle_websocket_or_health_request : S → S → HttpRequest → HttpResponse × Bool
  handle_websocket_or_health_request connections_at registrations_at req =
      if req.method == codes "GET"
      then (if req.path == codes "/health"
          then (
            typed (codes "application/json")
                (health_info (codes ",\"port\":\"8082\"") connections_at registrations_at),
            false,
          )
          else if upgrade_is_ws req
          then (switching lib req, true)
          else (plain 400 (codes "WebSocket upgrade required"), false))
      else (plain 405 (codes "Method not allowed"), false)
