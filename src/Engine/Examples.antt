-- ===== src/Engine/Examples.antt =====
-- An endpoint and two errors, and the theorems about endpoints and redaction at them.
use susun.Prelude.{◌≡◌, ◌↔◌, refl, Bool, false, none, Text, text, list_eq, nat_eq, ◌=?◌, ◌==◌}
use susun.Engine.Endpoint.{TcpEndpoint, ok, new_endpoint}
use susun.Engine.Errors.{
  EngineError, connection, endpoint_unavailable, redacted_message, redacted_message-hidden,
}
use susun.Engine.Hosts.{IsHost, new_endpoint-IsHost_iff}

-- A reader of addresses that knows one of them.
abbrev is_loopback : Text → Bool
is_loopback address = address =? text "::1"

abbrev loopback : TcpEndpoint
loopback = record { host = text "[::1]"; port = 2376; tls = none }

new_endpoint-IsHost_iff_example : (new_endpoint is_loopback (text "[::1]") 2376 ≡ ok loopback) ↔ (
    IsHost is_loopback (text "[::1]")
    × ((2376 == 0) ≡ false)
    × (loopback ≡ record { host = text "[::1]"; port = 2376; tls = none }))
new_endpoint-IsHost_iff_example = new_endpoint-IsHost_iff is_loopback (text "[::1]") 2376 loopback

accepted : new_endpoint is_loopback (text "[::1]") 2376 ≡ ok loopback
unfolding new_endpoint
accepted = refl

abbrev refused : EngineError
refused = connection (endpoint_unavailable (text "https://<remote-host>") (text "token=abc"))

abbrev timed_out : EngineError
timed_out = connection (endpoint_unavailable (text "local") (text "timeout"))

redacted_message-hidden_example : redacted_message refused ≡ redacted_message timed_out
redacted_message-hidden_example = redacted_message-hidden refused timed_out refl
