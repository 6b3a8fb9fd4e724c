-- ===== src/Engine/Hosts.antt =====
-- crates/susun-engine/src/operation.rs: the endpoints that `TcpEndpoint::new` accepts, and the tokens that
-- stand for endpoints in what is shown.
use susun.Prelude.{
  ℕ, ◌≡◌, ◌↔◌, refl, Bool, true, false, ◌||◌, none, some, [], ◌∷◌, Text, text, arith, list_eq,
  nat_eq, starts_with, ◌==◌, Option-cases, inl, inr,
}
use susun.IndexMap.{contains}
use susun.Engine.Endpoint.{
  ok, TcpEndpoint, EngineEndpoint, local, unix_socket, windows_named_pipe, tcp, redacted,
  from_serialized_redacted, contains_text, ends_with_char, without_last, tail, is_empty_path,
  at_sign, slash, question_mark, open_bracket, close_bracket, colon, check_brackets, validate_host,
  new_endpoint,
}

-- What a host has to be: no part of a URL around it, and in brackets exactly an IPv6 address.
pub record IsHost (is_ipv6 : Text → Bool) (host : Text) : Type 0 where
  pub not_empty : is_empty_path host ≡ false
  pub no_scheme :
      (contains_text (text "http://") host || contains_text (text "https://") host) ≡ false
  pub no_credentials : contains host at_sign ≡ false
  pub no_path : contains host slash ≡ false
  pub no_query : contains host question_mark ≡ false
  pub brackets : starts_with (open_bracket ∷ []) host ≡ ends_with_char close_bracket host
  pub address :
      starts_with (open_bracket ∷ []) host ≡ true → is_ipv6 (without_last (tail host)) ≡ true
  pub no_colon : starts_with (open_bracket ∷ []) host ≡ false → contains host colon ≡ false

module _ (is_ipv6 : Text → Bool) where
  validate_host-none : (host : Text) → validate_host is_ipv6 host ≡ none → IsHost is_ipv6 host
  unfolding validate_host check_brackets
  validate_host-none host h = record {
    not_empty = ground (arith, h);
    no_scheme = ground (arith, h);
    no_credentials = ground (arith, h);
    no_path = ground (arith, h);
    no_query = ground (arith, h);
    brackets = ground (arith, h);
    address = λ opens. ground (arith, h, opens);
    no_colon = λ bare. ground (arith, h, bare);
  }

  validate_host-IsHost : (host : Text) → IsHost is_ipv6 host → validate_host is_ipv6 host ≡ none
  unfolding validate_host check_brackets
  validate_host-IsHost host h = ground (
    arith, h.not_empty, h.no_scheme, h.no_credentials, h.no_path, h.no_query, h.brackets, h.address,
    h.no_colon,
  )

  -- `TcpEndpoint::new` returns an endpoint exactly if the port is not 0 and the host is not empty, has no
  -- scheme, no `@`, no `/` and no `?`, and either stands in brackets around an IPv6 address or has
  -- neither a bracket at an end nor a colon; the endpoint has this host and port, and no TLS.
  pub new_endpoint-IsHost_iff :
      (host : Text) (port : ℕ) (endpoint : TcpEndpoint)
      → (new_endpoint is_ipv6 host port ≡ ok endpoint) ↔ (
          IsHost is_ipv6 host
          × ((port == 0) ≡ false)
          × (endpoint ≡ record { host = host; port = port; tls = none }))
  unfolding new_endpoint
  new_endpoint-IsHost_iff host port endpoint = (
    λ h. elim (Option-cases (validate_host is_ipv6 host)) [
      | inl good ↦ (validate_host-none host good, ground (arith, good, h), ground (arith, good, h))
      | inr (e, bad) ↦ absurd (ground (arith, bad, h))
    ],
    λ (good, port_set, same). ground (arith, validate_host-IsHost host good, port_set, same),
  )

-- A redacted endpoint that was written is read back as it is, whichever endpoint it stands for.
pub from_serialized_redacted-redacted :
    (endpoint : EngineEndpoint)
    → from_serialized_redacted (redacted endpoint) ≡ some (redacted endpoint)
unfolding from_serialized_redacted redacted contains
from_serialized_redacted-redacted local = refl
from_serialized_redacted-redacted (unix_socket path) = refl
from_serialized_redacted-redacted (windows_named_pipe pipe) = refl
from_serialized_redacted-redacted (tcp endpoint) = elim (Option-cases endpoint.tls) [
  | inl plain ↦ rw plain refl
  | inr (tls, secure) ↦ rw secure refl
]
