-- ===== src/Engine/Endpoint.antt =====
-- crates/susun-engine/src/operation.rs: the endpoints of an engine, what of them may be shown, and the
-- check of a host name. The error types are those of src/error.rs.
use susun.Prelude.{
  ℕ, Bool, true, false, not, ◌&&◌, ◌||◌, Option, none, some, List, [], ◌∷◌, ◌++◌, Text, text,
  list_eq, nat_eq, starts_with, ◌==◌, if◌then◌else◌,
}
use susun.IndexMap.{contains}

-- `InvalidEngineEndpoint`
pub data InvalidEngineEndpoint : Type 0 where
  empty_host embedded_scheme embedded_credentials embedded_path_or_query port_zero malformed_ipv6
        unbracketed_ipv6 :
      InvalidEngineEndpoint

pub data TlsConfigurationError : Type 0 where
  incomplete_client_identity : TlsConfigurationError

-- `Result<A, E>`
pub data EngineResult {ℓ κ} (A : Type ℓ) (E : Type κ) : Type (ℓ ⊔ κ) where
  ok : A → EngineResult A E
  err : E → EngineResult A E

-- Paths are texts.
pub record ClientIdentityFiles : Type 0 where
  pub certificate : Text
  pub private_key : Text

abbrev pub is_empty_path : Text → Bool
is_empty_path [] = true
is_empty_path (c ∷ path) = false

-- `ClientIdentityFiles::new`
abbrev pub new_identity :
    (certificate private_key : Text) → EngineResult ClientIdentityFiles TlsConfigurationError
new_identity certificate private_key =
    if is_empty_path certificate || is_empty_path private_key
    then err incomplete_client_identity
    else ok (record { certificate = certificate; private_key = private_key })

pub record TlsConfiguration : Type 0 where
  pub ca_certificate : Option Text
  pub client_identity : Option ClientIdentityFiles
  pub server_name : Option Text

-- `TlsConfiguration::new`
abbrev pub new_tls : TlsConfiguration
new_tls = record { ca_certificate = none; client_identity = none; server_name = none }

-- `TlsConfiguration::with_ca_certificate`
abbrev pub with_ca_certificate : Text → TlsConfiguration → TlsConfiguration
with_ca_certificate path t = record t { ca_certificate = some path }

-- `TlsConfiguration::with_client_identity`
abbrev pub with_client_identity : ClientIdentityFiles → TlsConfiguration → TlsConfiguration
with_client_identity identity t = record t { client_identity = some identity }

-- `TlsConfiguration::with_server_name`
abbrev pub with_server_name : Text → TlsConfiguration → TlsConfiguration
with_server_name name t = record t { server_name = some name }

pub record TcpEndpoint : Type 0 where
  pub host : Text
  pub port : ℕ
  pub tls : Option TlsConfiguration

pub data EngineEndpoint : Type 0 where
  local : EngineEndpoint
  unix_socket : (path : Text) → EngineEndpoint
  windows_named_pipe : (pipe : Text) → EngineEndpoint
  tcp : TcpEndpoint → EngineEndpoint

pub data EngineEndpointKind : Type 0 where
  local unix_socket windows_named_pipe tcp : EngineEndpointKind

-- `EngineEndpoint::kind`
abbrev pub endpoint_kind : EngineEndpoint → EngineEndpointKind
endpoint_kind local = EngineEndpointKind.local
endpoint_kind (unix_socket _) = EngineEndpointKind.unix_socket
endpoint_kind (windows_named_pipe _) = EngineEndpointKind.windows_named_pipe
endpoint_kind (tcp _) = EngineEndpointKind.tcp

abbrev pub scheme : Option TlsConfiguration → Text
scheme (some _) = text "https"
scheme none = text "http"

-- `EngineEndpoint::redacted`
unfoldable pub redacted : EngineEndpoint → Text
redacted local = text "local"
redacted (unix_socket _) = text "unix://<local-socket>"
redacted (windows_named_pipe _) = text "npipe://<local-pipe>"
redacted (tcp endpoint) = scheme endpoint.tls ++ text "://<remote-host>"

-- The tokens that `RedactedEndpoint::from_serialized_redacted` accepts.
abbrev pub redacted_tokens : List Text
redacted_tokens =
    text "local"
    ∷ text "unix://<local-socket>"
    ∷ text "npipe://<local-pipe>"
    ∷ text "http://<remote-host>"
    ∷ text "https://<remote-host>"
    ∷ []

-- `RedactedEndpoint` wraps a text.
unfoldable pub from_serialized_redacted : Text → Option Text
unfolding contains
from_serialized_redacted value = if contains redacted_tokens value then some value else none

-- `s.contains(pattern)`
unfoldable pub contains_text : (pattern : Text) → Text → Bool
contains_text pattern [] = starts_with pattern []
contains_text pattern (c ∷ s) = starts_with pattern (c ∷ s) || contains_text pattern s

-- `s.ends_with(d)`, for the text of `c` and `s`.
unfoldable pub last_is : ℕ → (c : ℕ) → Text → Bool
last_is d c [] = c == d
last_is d c (x ∷ s) = last_is d x s

-- `s.ends_with(d)`
unfoldable pub ends_with_char : ℕ → Text → Bool
unfolding last_is
ends_with_char d [] = false
ends_with_char d (c ∷ s) = last_is d c s

-- `s[..s.len() - 1]`, for a text that ends with an ASCII character.
unfoldable pub without_last : Text → Text
without_last [] = []
without_last (c ∷ s) = let rest = without_last s in elim s [ [] ↦ [] | x ∷ xs ↦ c ∷ rest ]

abbrev pub tail : Text → Text
tail [] = []
tail (c ∷ s) = s

-- The codes of `@`, `/`, `?`, `[`, `]` and `:`.
abbrev pub at_sign : ℕ
at_sign = 64

abbrev pub slash : ℕ
slash = 47

abbrev pub question_mark : ℕ
question_mark = 63

abbrev pub open_bracket : ℕ
open_bracket = 91

abbrev pub close_bracket : ℕ
close_bracket = 93

abbrev pub colon : ℕ
colon = 58

-- `is_ipv6` is `parse::<Ipv6Addr>().is_ok()` of the standard library.
module _ (is_ipv6 : Text → Bool) where
  -- The brackets, for a host that passed the tests before.
  unfoldable pub check_brackets : Text → Option InvalidEngineEndpoint
  unfolding contains ends_with_char without_last
  check_brackets host =
      let opens = starts_with (open_bracket ∷ []) host in
      let closes = ends_with_char close_bracket host in
      if opens && not closes || not opens && closes
      then some malformed_ipv6
      else if opens && closes
      then (if is_ipv6 (without_last (tail host)) then none else some malformed_ipv6)
      else if contains host colon
      then some unbracketed_ipv6
      else none

  -- `none` is `Ok(())`.
  unfoldable pub validate_host : Text → Option InvalidEngineEndpoint
  unfolding contains contains_text check_brackets
  validate_host host =
      if is_empty_path host
      then some empty_host
      else if contains_text (text "http://") host || contains_text (text "https://") host
      then some embedded_scheme
      else if contains host at_sign
      then some embedded_credentials
      else if contains host slash || contains host question_mark
      then some embedded_path_or_query
      else check_brackets host

  -- `TcpEndpoint::new`
  unfoldable pub new_endpoint :
      (host : Text) (port : ℕ) → EngineResult TcpEndpoint InvalidEngineEndpoint
  unfolding validate_host
  new_endpoint host port = elim (validate_host host) [
    | some e ↦ err e
    | none ↦
        if port == 0 then err port_zero else ok (record { host = host; port = port; tls = none })
  ]

-- `TcpEndpoint::with_tls`
abbrev pub with_tls : TlsConfiguration → TcpEndpoint → TcpEndpoint
with_tls tls endpoint = record endpoint { tls = some tls }
