-- ===== src/TestApp/Socket.antt =====
-- test-app/src/main.rs: the WebSocket of the sample service.
use anywhere_mesh.Base.{ℕ, suc, Text, codes, List, [], ◌∷◌, Bool, if◌then◌else◌}
use anywhere_mesh.Common.Types.{SystemTime}
use anywhere_mesh.TestApp.{Host, service_name, object}

-- axum's Message, and an error of the stream. A close frame is only printed.
pub data Received : Type 0 where
  text : Text → Received
  binary ping pong : List ℕ → Received
  close failed : Received

pub data Sent : Type 0 where
  sent_text : Text → Sent
  sent_binary sent_pong : List ℕ → Sent

unfoldable pub welcome_msg : Host → SystemTime → Text
welcome_msg host now = host.to_json (
    object (
      (codes "type", codes "welcome")
      ∷ (codes "service", service_name)
      ∷ (codes "timestamp", host.show_time now)
      ∷ (codes "message", codes "WebSocket connection established")
      ∷ []))

unfoldable pub echo_response : Host → SystemTime → Text → Text
echo_response host now received = host.to_json (
    object (
      (codes "type", codes "echo")
      ∷ (codes "original_message", received)
      ∷ (codes "service", service_name)
      ∷ (codes "timestamp", host.show_time now)
      ∷ (codes "connection_info", codes "WebSocket echo response")
      ∷ []))

-- The loop. `clock n` is the time of the n-th message, and `taken n` whether the socket took the
-- message that was sent then. The answer is what the socket was handed.
unfoldable pub receive_loop : Host → (ℕ → SystemTime) → (ℕ → Bool) → ℕ → List Received → List Sent
unfolding echo_response
receive_loop host clock taken n [] = []
receive_loop host clock taken n (text received ∷ msgs) =
    let rest = receive_loop host clock taken (suc n) msgs in
    sent_text (echo_response host (clock n) received) ∷ (if taken n then rest else [])
receive_loop host clock taken n (binary bytes ∷ msgs) =
    let rest = receive_loop host clock taken (suc n) msgs in
    sent_binary bytes ∷ (if taken n then rest else [])
receive_loop host clock taken n (ping bytes ∷ msgs) =
    let rest = receive_loop host clock taken (suc n) msgs in
    sent_pong bytes ∷ (if taken n then rest else [])
receive_loop host clock taken n (pong bytes ∷ msgs) = receive_loop host clock taken (suc n) msgs
receive_loop host clock taken n (close ∷ msgs) = []
receive_loop host clock taken n (failed ∷ msgs) = []

unfoldable pub handle_websocket : Host → (ℕ → SystemTime) → (ℕ → Bool) → List Received → List Sent
unfolding receive_loop welcome_msg
handle_websocket host clock taken msgs =
    let rest = receive_loop host clock taken 1 msgs in
    sent_text (welcome_msg host (clock 0)) ∷ (if taken 0 then rest else [])
