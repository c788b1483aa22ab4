-- ===== src/Helper/Protocol.antt =====
-- services/capture_client/protocol.rs, error.rs and health.rs: the messages, the errors and the health of the helper.
-- The type `V` stands for a value of serde_json, and a time or a Uuid is a number.
use corivo_desktop.Base.{ℕ, ◌-◌, Bool, List, Option, none, some, if◌then◌else◌, leb}
use corivo_desktop.Base.Text.{Text, codes, text_eq}

pub data ProtocolVersion : Type 0 where
  v1 unknown_version : ProtocolVersion

pub data Os : Type 0 where
  macos windows : Os

pub data Arch : Type 0 where
  arm64 x86_64 : Arch

pub record PlatformInfo : Type 0 where
  pub os : Os
  pub os_version : Text
  pub arch : Arch

pub record Capabilities (V : Type 0) : Type 0 where
  pub audio_record : Bool
  pub audio_per_app : Bool
  pub screen_capture : Bool
  pub ax_query : Bool
  pub ax_events : Bool
  pub foreground_monitor : Bool
  pub ocr_local : Bool
  pub extra : List (Text × V)

pub record Hello (V : Type 0) : Type 0 where
  pub helper_version : Text
  pub supported_protocols : List ProtocolVersion
  pub capabilities : Capabilities V
  pub platform : PlatformInfo

pub record HelloAck : Type 0 where
  pub selected_protocol : ProtocolVersion
  pub client_version : Text

pub record RecordingSessionStatus : Type 0 where
  pub session_id : Text
  pub segments_written : ℕ

-- A process id is a number here.
pub record Heartbeat : Type 0 where
  pub ts : ℕ
  pub in_flight_requests : ℕ
  pub recording_sessions : List RecordingSessionStatus
  pub ax_subscriptions : List ℕ

pub data LogLevel : Type 0 where
  trace debug info warn error : LogLevel

pub record LogMessage (V : Type 0) : Type 0 where
  pub level : LogLevel
  pub message : Text
  pub target : Option Text
  pub fields : Option V

pub record Request (V : Type 0) : Type 0 where
  pub id : ℕ
  pub method : Text
  pub payload : Option V

pub data ErrorCode : Type 0 where
  invalid_request unsupported permission_denied resource_busy : ErrorCode
  not_found timeout internal os_error : ErrorCode

pub record ResponseError (V : Type 0) : Type 0 where
  pub code : ErrorCode
  pub message : Text
  pub detail : V

pub record Response (V : Type 0) : Type 0 where
  pub id : ℕ
  pub ok : Bool
  pub result : Option V
  pub error : Option (ResponseError V)

pub record WireEvent (V : Type 0) : Type 0 where
  pub name : Text
  pub ts : ℕ
  pub payload : Option V

pub data Message (V : Type 0) : Type 0 where
  hello : Hello V → Message V
  hello_ack : HelloAck → Message V
  heartbeat : Heartbeat → Message V
  log : LogMessage V → Message V
  request_message : Request V → Message V
  response : Response V → Message V
  event : WireEvent V → Message V

pub data PermissionKind : Type 0 where
  microphone screen_recording accessibility : PermissionKind

-- A timeout carries the deadline; the texts of the others are for people.
pub data CaptureError (V : Type 0) : Type 0 where
  helper_unavailable helper_crashed : CaptureError V
  transport : Text → CaptureError V
  helper_error : ErrorCode → Text → V → CaptureError V
  permission_refused : PermissionKind → CaptureError V
  capability_unsupported : Text → CaptureError V
  timed_out : ℕ → CaptureError V
  protocol_violation : Text → CaptureError V
  internal_error : Text → CaptureError V

unfoldable pub kind_of_name : Text → Option PermissionKind
kind_of_name name =
    if text_eq name (codes "microphone")
    then some microphone
    else if text_eq name (codes "screen_recording")
    then some screen_recording
    else if text_eq name (codes "accessibility")
    then some accessibility
    else none

-- What is read from a value of serde_json: the text under a key, if it is an object and has one.
module _ {V : Type 0} (text_at : Text → V → Option Text) where
  unfoldable pub parse_permission_kind : V → Option PermissionKind
  parse_permission_kind detail = elim (text_at (codes "kind") detail) [
    | none ↦ none
    | some name ↦ kind_of_name name
  ]

  unfoldable pub from_response_error : ResponseError V → CaptureError V
  from_response_error e = elim e.code [
    | permission_denied ↦ elim (parse_permission_kind e.detail) [
      | none ↦ helper_error permission_denied e.message e.detail
      | some kind ↦ permission_refused kind
    ]
    | code ↦ helper_error code e.message e.detail
  ]

pub data HelperHealthStatus : Type 0 where
  alive pending crashed : HelperHealthStatus

pub record HealthMonitor : Type 0 where
  pub last_alive : Option ℕ
  pub crashed_threshold : ℕ

-- In milliseconds.
abbrev pub with_default_threshold : HealthMonitor
with_default_threshold = record { last_alive = none; crashed_threshold = 15000 }

unfoldable pub mark_alive : ℕ → HealthMonitor → HealthMonitor
mark_alive now h = record h { last_alive = some now }

-- `duration_since` gives zero for an earlier instant.
unfoldable pub status_at : ℕ → HealthMonitor → HelperHealthStatus
status_at now h = elim h.last_alive [
  | none ↦ pending
  | some t ↦ if leb (now - t) h.crashed_threshold then alive else crashed
]
