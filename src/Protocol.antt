-- ===== src/Protocol.antt =====
-- crates/outboard-protocol/src/lib.rs: the worker protocol's types and the transport of OS strings.
-- The platform is Unix, where an OS string is its bytes.
pub mod Framing
pub mod Wire
use outboard.Prelude.{
  ℤ, pos, ℕ, Text, String, codes, ◌≡◌, List, [], ◌∷◌, Option, none, some, Bool, if◌then◌else◌,
  Result, ok, err, ◌>>=◌,
}
use outboard.BtreeMap.{BtreeMap}
use outboard.Crates.{Crates}
use outboard.FileSystem.{is_utf8}
use outboard.Id.{InterfaceId}
use outboard.Manifest.{Manifest, InterfaceRequirement}

-- type RequestId = u64
abbrev pub RequestId : Type 0
RequestId = ℕ

pub data WireOsString : Type 0 where
  utf8 : Text → WireOsString
  unix : Text → WireOsString
  windows : List ℕ → WireOsString

pub data WireStringError : Type 0 where
  platform_mismatch : String → WireStringError

unfoldable pub from_os : Text → WireOsString
from_os v = if is_utf8 v then utf8 v else unix v

unfoldable pub into_os : WireOsString → Result Text WireStringError
into_os (utf8 s) = ok s
into_os (unix b) = ok b
into_os (windows w) = err (platform_mismatch "windows")

-- `map(into_os).collect()`: the first error ends it.
unfoldable pub all_into_os : List WireOsString → Result (List Text) WireStringError
all_into_os [] = ok []
all_into_os (a ∷ as_rest) = do v ← into_os a; vs ← all_into_os as_rest; ok (v ∷ vs)

module _ (lib : Crates) where
  open lib use {Version, Value, Float}

  pub record HostHello : Type 0 where
    pub framework : Version
    pub protocol : Version
    pub requested_interfaces : List (InterfaceRequirement lib)
    pub metadata : BtreeMap Text Value

  pub record PluginHello : Type 0 where
    pub protocol : Version
    pub manifest : Manifest lib

  pub record InvokeRequest : Type 0 where
    pub id : RequestId
    pub interface : InterfaceId
    pub command : Text
    pub args : List WireOsString
    pub metadata : BtreeMap Text Value

  -- InvokeRequest::args_os
  unfoldable pub args_os : InvokeRequest → Result (List Text) WireStringError
  args_os request = all_into_os request.args

  pub data Payload : Type 0 where
    json : Value → Payload
    text : Text → Payload
    bytes : Text → Payload
    file : WireOsString → Payload

  -- Payload::into_file
  unfoldable pub into_file : Payload → Result (Option Text) WireStringError
  into_file (file v) = do path ← into_os v; ok (some path)
  into_file _ = ok none

  pub record InvocationResult : Type 0 where
    pub status : ℤ
    pub result : Option Payload
    pub metadata : BtreeMap Text Value

  unfoldable pub success : Payload → InvocationResult
  success v = record { status = pos 0; result = some v; metadata = [] }

  unfoldable pub empty_success : InvocationResult
  empty_success = record { status = pos 0; result = none; metadata = [] }

  pub record WorkerError : Type 0 where
    pub code : Text
    pub message : Text
    pub details : Option Value

  unfoldable pub new_worker_error : Text → Text → WorkerError
  new_worker_error c m = record { code = c; message = m; details = none }

  pub data HostFrame : Type 0 where
    hello : HostHello → HostFrame
    invoke : InvokeRequest → HostFrame
    cancel : RequestId → HostFrame
    ping : (nonce : ℕ) → HostFrame
    shutdown : HostFrame

  pub data PluginFrame : Type 0 where
    hello : PluginHello → PluginFrame
    started : RequestId → PluginFrame
    progress : RequestId → (fraction : Option Float) → (message : Option Text) → PluginFrame
    output : RequestId → Payload → PluginFrame
    finished : RequestId → InvocationResult → PluginFrame
    error : Option RequestId → WorkerError → PluginFrame
    pong : (nonce : ℕ) → PluginFrame
    shutdown_ack : PluginFrame

  unfoldable pub request_id : PluginFrame → Option RequestId
  request_id (started id) = some id
  request_id (progress id _ _) = some id
  request_id (output id _) = some id
  request_id (finished id _) = some id
  request_id (error id _) = id
  request_id (PluginFrame.hello _) = none
  request_id (pong _) = none
  request_id shutdown_ack = none
