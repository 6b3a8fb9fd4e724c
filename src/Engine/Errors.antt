-- ===== src/Engine/Errors.antt =====
-- crates/susun-engine/src/error.rs: the errors of an engine, and what of them may be shown.
use susun.Prelude.{◌≡◌, refl, sym, ap, ◌∙◌, [], ◌++◌, Text, text, list_eq, nat_eq}
use susun.Engine.Endpoint.{EngineEndpointKind}

-- An error of the adapter is represented by its message.
abbrev pub BoxError : Type 0
BoxError = Text

pub data EngineOperation : Type 0 where
  capabilities snapshot container_inventory image_inventory engine_information pull_image
        remove_image tag_image push_image create_network remove_network create_volume remove_volume
        create_container start_container stop_container remove_container logs events exec copy port
        wait prune :
      EngineOperation

-- `Display` of `EngineOperation`.
abbrev pub display_operation : EngineOperation → Text
display_operation capabilities = text "capabilities"
display_operation snapshot = text "snapshot"
display_operation container_inventory = text "container inventory"
display_operation image_inventory = text "image inventory"
display_operation engine_information = text "engine information"
display_operation pull_image = text "pull image"
display_operation remove_image = text "remove image"
display_operation tag_image = text "tag image"
display_operation push_image = text "push image"
display_operation create_network = text "create network"
display_operation remove_network = text "remove network"
display_operation create_volume = text "create volume"
display_operation remove_volume = text "remove volume"
display_operation create_container = text "create container"
display_operation start_container = text "start container"
display_operation stop_container = text "stop container"
display_operation remove_container = text "remove container"
display_operation logs = text "logs"
display_operation events = text "events"
display_operation exec = text "exec"
display_operation copy = text "copy"
display_operation port = text "port"
display_operation wait = text "wait"
display_operation prune = text "prune"

pub data Platform : Type 0 where
  windows mac_os linux other : Platform

-- A `RedactedEndpoint` is the text that it wraps.
pub data EngineConnectionError : Type 0 where
  invalid_endpoint : (detail : Text) → EngineConnectionError
  unsupported_endpoint : EngineEndpointKind → Platform → EngineConnectionError
  tls_configuration : (detail : Text) → EngineConnectionError
  endpoint_unavailable : (endpoint : Text) (source : BoxError) → EngineConnectionError
  api_negotiation : (source : BoxError) → EngineConnectionError
  authentication : (endpoint : Text) (source : BoxError) → EngineConnectionError

-- `EngineConnectionError::redacted_message`
unfoldable pub redacted_connection : EngineConnectionError → Text
redacted_connection (invalid_endpoint detail) = detail
redacted_connection (tls_configuration detail) = detail
redacted_connection (unsupported_endpoint kind platform) =
    text "engine endpoint kind is not supported on this platform"
redacted_connection (endpoint_unavailable endpoint source) = text "engine endpoint is unavailable"
redacted_connection (api_negotiation source) = text "failed to probe engine API version"
redacted_connection (authentication endpoint source) = text "engine endpoint authentication failed"

pub data ResourceIdentity : Type 0 where
  name container network volume image : Text → ResourceIdentity

-- `Display` of `ResourceIdentity`.
abbrev pub display_resource : ResourceIdentity → Text
display_resource (name value) = text "name " ++ value
display_resource (container value) = text "container " ++ value
display_resource (network value) = text "network " ++ value
display_resource (volume value) = text "volume " ++ value
display_resource (image value) = text "image " ++ value

pub data EngineError : Type 0 where
  connection : EngineConnectionError → EngineError
  api : (operation : EngineOperation) (source : BoxError) → EngineError
  unsupported : (capability : Text) → EngineError
  invalid_request : (operation : EngineOperation) (detail : Text) → EngineError
  conflict : (resource : ResourceIdentity) (detail : Text) → EngineError
  not_found : (resource : ResourceIdentity) → EngineError
  authentication : (registry : Text) → EngineError
  cancelled : EngineError

-- `EngineError::redacted_message`
unfoldable pub redacted_message : EngineError → Text
unfolding redacted_connection
redacted_message (connection error) = redacted_connection error
redacted_message (api operation source) =
    text "engine " ++ (display_operation operation ++ text " failed")
redacted_message (unsupported capability) = text "engine does not support " ++ capability
redacted_message (invalid_request operation detail) =
    text "invalid engine " ++ (display_operation operation ++ (text " request: " ++ detail))
redacted_message (conflict resource detail) =
    text "engine resource conflict for " ++ display_resource resource
redacted_message (not_found resource) =
    text "engine resource not found: " ++ display_resource resource
redacted_message (authentication registry) = text "engine authentication failed for " ++ registry
redacted_message cancelled = text "engine operation cancelled"

-- An error without what the adapter put into it: source errors, endpoints and the detail of a conflict.
abbrev pub hide_connection : EngineConnectionError → EngineConnectionError
hide_connection (endpoint_unavailable endpoint source) = endpoint_unavailable [] []
hide_connection (api_negotiation source) = api_negotiation []
hide_connection (EngineConnectionError.authentication endpoint source) =
    EngineConnectionError.authentication [] []
hide_connection e = e

abbrev pub hide : EngineError → EngineError
hide (connection error) = connection (hide_connection error)
hide (api operation source) = api operation []
hide (conflict resource detail) = conflict resource []
hide e = e

redacted_connection-hide :
    (e : EngineConnectionError) → redacted_connection (hide_connection e) ≡ redacted_connection e
unfolding redacted_connection
redacted_connection-hide (invalid_endpoint detail) = refl
redacted_connection-hide (tls_configuration detail) = refl
redacted_connection-hide (unsupported_endpoint kind platform) = refl
redacted_connection-hide (endpoint_unavailable endpoint source) = refl
redacted_connection-hide (api_negotiation source) = refl
redacted_connection-hide (authentication endpoint source) = refl

redacted_message-hide : (e : EngineError) → redacted_message (hide e) ≡ redacted_message e
unfolding redacted_message
redacted_message-hide (connection error) = redacted_connection-hide error
redacted_message-hide (api operation source) = refl
redacted_message-hide (unsupported capability) = refl
redacted_message-hide (invalid_request operation detail) = refl
redacted_message-hide (conflict resource detail) = refl
redacted_message-hide (not_found resource) = refl
redacted_message-hide (authentication registry) = refl
redacted_message-hide cancelled = refl

-- Two errors that differ at most in their source errors, the endpoints of a failed connection or the detail of
-- a conflict have the same redacted message: it shows none of these.
pub redacted_message-hidden :
    (d e : EngineError) → hide d ≡ hide e → redacted_message d ≡ redacted_message e
redacted_message-hidden d e same =
    sym (redacted_message-hide d) ∙ ap redacted_message same ∙ redacted_message-hide e
