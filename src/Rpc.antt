-- ===== src/Rpc.antt =====
-- crates/netplan-cli/src/jsonrpc.rs: the JSON-RPC 2.0 gateway. JSON is a data type; what serde does
-- with it, the daemon and the clock are parameters.
pub mod Commands
pub mod Answers
pub mod Gateway
pub mod Requests
pub mod Bounds
pub mod Methods
pub mod Waiting
pub mod Replies
pub mod Lookups
pub mod Inspection
use netplan.Base.{ℕ, Bool, Option, none, some, List, [], ◌∷◌, Text, text_eq, if◌then◌else◌, Result}
use netplan.Config.{ConfigFormat}
use netplan.Model.{AdapterInfo, Capability, WifiInterfaceStatus, WifiNetwork}
use netplan.Plan.{Operation}
use netplan.Protocol.{JobState, JobSummary, ValidationIssue, Request, Response}

-- `serde_json::Number`: a u64, a negative i64 by its absolute value, or the bits of a f64.
pub data Number : Type 0 where
  pos_int neg_int float : ℕ → Number

-- `serde_json::Value`; a map has its entries in the order in which they are written.
mutual
  pub data Value : Type 0 where
    null : Value
    bool : Bool → Value
    number : Number → Value
    string : Text → Value
    array : Values → Value
    object : Members → Value

  pub data Values : Type 0 where
    nil : Values
    item : Value → Values → Values

  pub data Members : Type 0 where
    end : Members
    member : Text → Value → Members → Members

abbrev pub values : List Value → Values
values [] = nil
values (v ∷ vs) = item v (values vs)

abbrev pub members : List (Text × Value) → Members
members [] = end
members ((k, v) ∷ rest) = member k v (members rest)

-- `Map::insert`
abbrev pub insert : Text → Value → Members → Members
insert k v end = member k v end
insert k v (member j w rest) =
    let later = insert k v rest in if text_eq j k then member k v rest else member j w later

-- `Map::get`
abbrev pub member_of : Text → Members → Option Value
member_of k end = none
member_of k (member j v rest) =
    let later = member_of k rest in if text_eq j k then some v else later

-- `Value::get` by a text
abbrev pub get : Text → Value → Option Value
get k (object fields) = member_of k fields
get k _ = none

pub record RpcError : Type 0 where
  pub code : Number
  pub message : Text
  pub extra : Option Value

-- `id` is absent, or a value.
pub record RpcRequest : Type 0 where
  pub jsonrpc : Text
  pub id : Option Value
  pub method : Text
  pub params : Value

pub record ConfigParams : Type 0 where
  pub document : Text
  pub format : Option Text
  pub dry_run : Option Bool

pub record JobListParams : Type 0 where
  pub state : Option JobState
  pub limit : Option ℕ

pub record JobWaitParams : Type 0 where
  pub job_id : Text
  pub timeout_ms : Option ℕ
  pub interval_ms : Option ℕ

pub record AdapterSelectorParams : Type 0 where
  pub if_index : Option ℕ
  pub name : Option Text
  pub guid : Option Text
  pub mac_address : Option Text
  pub description_contains : Option Text

pub record WifiScanParams : Type 0 where
  pub if_index : Option ℕ
  pub refresh : Option Bool
  pub timeout_ms : Option ℕ

pub data ExampleFormat : Type 0 where
  yaml json : ExampleFormat

pub data RpcCommand : Type 0 where
  call : Request → RpcCommand
  capability_get : (name : Text) → RpcCommand
  adapter_get : AdapterSelectorParams → RpcCommand
  config_inspect : (document : List ℕ) (format : ConfigFormat) → RpcCommand
  config_describe : RpcCommand
  config_example : ExampleFormat → RpcCommand
  job_wait : JobWaitParams → RpcCommand
  discover : RpcCommand

-- What serde derives and serde_json does, with the text of an error, and what `{…:?}` shows. The
-- parameter structs of one field are its type.
pub record Serde : Type 0 where
  pub request : Text → Result Text RpcRequest
  pub config_params : Value → Result Text ConfigParams
  pub job_params : Value → Result Text Text
  pub job_list_params : Value → Result Text JobListParams
  pub job_wait_params : Value → Result Text JobWaitParams
  pub name_params : Value → Result Text Text
  pub adapter_selector_params : Value → Result Text AdapterSelectorParams
  pub example_params : Value → Result Text (Option Text)
  pub wifi_status_params : Value → Result Text (Option ℕ)
  pub wifi_scan_params : Value → Result Text WifiScanParams
  pub to_string : Value → Result Text Text
  -- the file schemas/jsonrpc.json, and the version of the crate
  pub contract : Result Text Value
  pub package_version : Text
  pub debug : Text → Text
  pub debug_response : Response → Text
  -- `json!` of a value of the program
  pub capability : Capability → Value
  pub adapter : AdapterInfo → Value
  pub wifi_interface : WifiInterfaceStatus → Value
  pub wifi_network : WifiNetwork → Value
  pub issue : ValidationIssue → Value
  pub operation : Operation → Value
  pub job_state : JobState → Value
  pub job : JobSummary → Value
