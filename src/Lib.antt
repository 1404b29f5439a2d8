-- ===== src/Lib.antt =====
-- Anywhere Mesh carries HTTP requests and WebSocket connections from a load balancer to services
-- that run anywhere. An agent beside the service opens a WebSocket to the ingress server, proves
-- its IAM identity, registers the host names that it serves and sends heartbeats; the ingress finds
-- the agent for a request by its host, forwards the request as a message, and waits for the agent's
-- response.
--
-- Common models mesh/src/common: Common.Types and Common.Auth the messages (types.rs, auth.rs),
-- Common.Routing the choice of a registration for a host and of a live one (routing.rs),
-- Common.Config the configuration and its defaults (config.rs), which nothing reads. Server models
-- mesh/src/server: Server.Error the errors (error.rs), Server.Registry the connections,
-- registrations and senders (registry.rs), Server.Router the pending requests, the host cache and
-- `route_request` (router.rs), Server.Auth the validation of a presigned STS URL (auth.rs;
-- Server.Auth.Documents reads the XML of its answer), and Server.Dispatcher what a message of an
-- agent does (dispatcher.rs), Server.Tunnel the WebSocket tunnels (ws_proxy.rs; Server.Tunnel.Open
-- the call that opens one, Relay its two relays, Task the task around them), Server.Service a
-- connection's messages and its life (service.rs), Server.Handlers the HTTP handlers
-- (handlers/alb.rs, and in Server.Handlers.Pages handlers/health.rs and handlers/websocket.rs),
-- Server.Start the start (mod.rs), Server.Http the parts of a request that they read.
-- Server.Channels stands for tokio's `mpsc`, Server.Libraries for the other functions of libraries:
-- the JSON parser, base64, the printing of identifiers and the checks of the http crate are fields
-- of a record that the definitions take. Client models mesh/src/client: Client.Start the start
-- (mod.rs), Client.Aws the calls of AWS (aws/mod.rs), Client.Proxy the forwarding of a request to
-- the local service (proxy/mod.rs), Client.Sessions the agent's end of the tunnels and Client.Local
-- the tasks of a session (proxy/ws.rs), and of client_impl.rs Client.Presign the presigned URL,
-- Client.Identity what the agent tells of itself, Client.Connection a connection from its handshake
-- to its end, Client.Agent the messages of the ingress, Client.Monitor and Client.Heartbeats the
-- two tasks beside a connection. Client.Uplink is about the order in which a connection sends.
-- Client.Introduction, Client.Reach, Client.Exchange, Client.Delivery, Client.Presign.Accepted,
-- Client.Local.Upward and Client.Local.Closes put agent and ingress together. Main models
-- mesh/src/main.rs, and Server.Start and Client.Start the options of mesh/src/commands.rs.
-- Client.Anyhow is anyhow's `Result`. Base has the functions of Rust's standard library that the
-- code calls, and their laws. Client.Opening opens a tunnel from the load balancer's upgrade to the
-- local service. TestApp models test-app/src/main.rs, the sample service: TestApp its state and
-- helpers, TestApp.Pages the handlers, TestApp.Socket its WebSocket, TestApp.Routes the routes,
-- TestApp.Start the port and the start; TestApp.Echo and TestApp.Upgrade put it behind an agent.
-- Server.Tests has the unit tests of registry.rs, router.rs, dispatcher.rs and auth.rs as
-- definitions, and Server.Tests.Passing runs them for whatever they draw. Examples runs the
-- definitions and the theorems at concrete inputs.
--
-- State is a record that an operation takes and gives back beside its result. A field of the
-- source's struct is a field of the record under its name. `Registry S` is the trait, over any
-- state S; router and dispatcher take it, and `default_registry` fills it.
--
-- Tasks interleave at every await. A call of the registry enters its sections, one for each lock,
-- in its order, and Server.Registry.Interleaving orders the sections of different calls at will.
-- `route_request` takes the registry's state and the clock at each of its reads, and what other
-- tasks do to the router while it waits and after, as lists of steps (Server.Router.Pending) of any
-- length. A `oneshot` channel is an entry of a table in the router's record, with a name that
-- counts up. A wait that no response and no dropped sender has ended has run into the timeout: the
-- timer itself is not modelled. A message of an agent is dispatched as one step.
-- `start_ws_tunnel_from_alb` takes what other tasks do to the tunnels at its awaits as functions,
-- and `handle_websocket_stream` what the agent sends before the clean-up and behind it, with what
-- other tasks did before each item.
--
-- A `HashMap` is an association list whose order is the order of Rust's iteration; theorems hold of
-- every such list. Clock readings are numbers of nanoseconds, one for each call of the clock. A
-- UUID is a number; that a fresh UUID is nobody else's is a hypothesis where it matters. Texts are
-- lists of bytes. Every loop of the code recurses on a list. Only the printing of a number recurses
-- on fuel, one more than the number, which is more than it has digits (Base.Digits reads them
-- back).
--
-- The task of a tunnel (Server.Tunnel.Task) takes what the load balancer's stream has yielded so
-- far and whether it has ended. It answers none while it waits for an acknowledgment or for a
-- relay; the messages of its relay to the agent go into the channel without those of other tasks
-- between.
--
-- A connection of the agent takes the failures of its sends, the stream's items and the turns of
-- `select!` as inputs, in any order; what the tasks of its sessions do between is a turn of its
-- own. What the surroundings provide (the AWS SDK, percent encoding, hashes, HMAC, the clock's
-- text) are fields of records; that the encoder escapes what its documentation says is a hypothesis
-- where it matters.
--
-- axum's router and extractors, the CORS layer around them, serde_json, chrono, the environment and
-- the clocks are what a call of the sample service finds around it; a number of seconds that it
-- keeps as a float is kept as its nanoseconds. A round of its WebSocket loop has a number, by which
-- the clock and the socket are asked.
--
-- Not modelled: sockets, TLS, HTTP parsing, logging, how long a handler of the sample service takes
-- but for the delay that it measures, how hyper accepts a connection before it calls the handler of
-- the port, serialising, whose failure ends a connection, and the tests that need the JSON parser
-- or AWS.
pub mod Base
pub mod Common
pub mod Server
pub mod Client
pub mod Main
pub mod TestApp
pub mod Examples
