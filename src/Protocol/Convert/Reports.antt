-- ===== src/Protocol/Convert/Reports.antt =====
-- The conversions of what the daemon reports: capabilities, adapters, Wi-Fi and operations, at the
-- end of crates/netplan/src/protocol/mod.rs.
use netplan.Base.{Option, none, some, map, Result, ok, ◌>>=◌, Text, codes}
use netplan.Error.{Error}
use netplan.Model.{Capability, IpAddressInfo, AdapterInfo, WifiInterfaceStatus, WifiNetwork}
use netplan.Plan.{Operation}
use netplan.Protocol.Wire.{
  CapabilityT, IpAddressT, AdapterT, OperationT, WifiInterfaceStatusT, WifiNetworkT,
}
use netplan.Protocol.Convert.Values.{
  then_some, has, or_zero, or_false_value, or_empty, capability_state_to_wire,
  capability_state_from_wire, risk_to_wire, risk_from_wire,
}

unfoldable pub capability_to_wire : Capability → CapabilityT
capability_to_wire value = record {
  name = value.name;
  state = capability_state_to_wire value.state;
  reason = value.reason;
}

unfoldable pub capability_from_wire : CapabilityT → Result Error Capability
capability_from_wire value = capability_state_from_wire value.state >>= λ state.
    ok (record { name = value.name; state = state; reason = value.reason })

unfoldable pub ip_address_to_wire : IpAddressInfo → IpAddressT
ip_address_to_wire value = record { address = value.address; prefix_length = value.prefix_length }

unfoldable pub ip_address_from_wire : IpAddressT → IpAddressInfo
ip_address_from_wire value = record { address = value.address; prefix_length = value.prefix_length }

unfoldable pub adapter_to_wire : AdapterInfo → AdapterT
adapter_to_wire value = record {
  if_index = value.if_index;
  name = value.name;
  description = value.description;
  guid = value.guid;
  mac_address = value.mac_address;
  status = some value.status;
  hardware = value.hardware;
  ipv4 = some (map ip_address_to_wire value.ipv4);
  ipv6 = some (map ip_address_to_wire value.ipv6);
}

-- `value.status.unwrap_or_else(|| "unknown".into())`
abbrev pub or_unknown : Option Text → Text
or_unknown none = codes "unknown"
or_unknown (some text) = text

unfoldable pub adapter_from_wire : AdapterT → AdapterInfo
adapter_from_wire value = record {
  if_index = value.if_index;
  name = value.name;
  description = value.description;
  guid = value.guid;
  mac_address = value.mac_address;
  status = or_unknown value.status;
  hardware = value.hardware;
  ipv4 = map ip_address_from_wire (or_empty value.ipv4);
  ipv6 = map ip_address_from_wire (or_empty value.ipv6);
}

unfoldable pub wifi_interface_status_to_wire : WifiInterfaceStatus → WifiInterfaceStatusT
wifi_interface_status_to_wire value = record {
  if_index = value.if_index;
  name = value.name;
  guid = value.guid;
  state = value.state;
  profile_name = value.profile_name;
  ssid = value.ssid;
  ssid_hex = value.ssid_hex;
  has_signal_quality = has value.signal_quality;
  signal_quality = or_zero value.signal_quality;
  has_security_enabled = has value.security_enabled;
  security_enabled = or_false_value value.security_enabled;
  authentication = value.authentication;
  cipher = value.cipher;
  has_rx_rate_kbps = has value.rx_rate_kbps;
  rx_rate_kbps = or_zero value.rx_rate_kbps;
  has_tx_rate_kbps = has value.tx_rate_kbps;
  tx_rate_kbps = or_zero value.tx_rate_kbps;
}

unfoldable pub wifi_interface_status_from_wire : WifiInterfaceStatusT → WifiInterfaceStatus
wifi_interface_status_from_wire value = record {
  if_index = value.if_index;
  name = value.name;
  guid = value.guid;
  state = value.state;
  profile_name = value.profile_name;
  ssid = value.ssid;
  ssid_hex = value.ssid_hex;
  signal_quality = then_some value.has_signal_quality value.signal_quality;
  security_enabled = then_some value.has_security_enabled value.security_enabled;
  authentication = value.authentication;
  cipher = value.cipher;
  rx_rate_kbps = then_some value.has_rx_rate_kbps value.rx_rate_kbps;
  tx_rate_kbps = then_some value.has_tx_rate_kbps value.tx_rate_kbps;
}

unfoldable pub wifi_network_to_wire : WifiNetwork → WifiNetworkT
wifi_network_to_wire value = record {
  interface_if_index = value.interface_if_index;
  interface_name = value.interface_name;
  ssid = value.ssid;
  ssid_hex = value.ssid_hex;
  profile_name = value.profile_name;
  signal_quality = value.signal_quality;
  security_enabled = value.security_enabled;
  authentication = value.authentication;
  cipher = value.cipher;
  connectable = value.connectable;
  has_not_connectable_reason = has value.not_connectable_reason;
  not_connectable_reason = or_zero value.not_connectable_reason;
  connected = value.connected;
  bss_count = value.bss_count;
}

unfoldable pub wifi_network_from_wire : WifiNetworkT → WifiNetwork
wifi_network_from_wire value = record {
  interface_if_index = value.interface_if_index;
  interface_name = value.interface_name;
  ssid = value.ssid;
  ssid_hex = value.ssid_hex;
  profile_name = value.profile_name;
  signal_quality = value.signal_quality;
  security_enabled = value.security_enabled;
  authentication = value.authentication;
  cipher = value.cipher;
  connectable = value.connectable;
  not_connectable_reason = then_some value.has_not_connectable_reason value.not_connectable_reason;
  connected = value.connected;
  bss_count = value.bss_count;
}

unfoldable pub operation_to_wire : Operation → OperationT
operation_to_wire value = record {
  id = value.id;
  capability = value.capability;
  summary = value.summary;
  risk = risk_to_wire value.risk;
  target = value.target;
}

unfoldable pub operation_from_wire : OperationT → Result Error Operation
operation_from_wire value = risk_from_wire value.risk >>= λ risk. ok (record {
  id = value.id;
  capability = value.capability;
  summary = value.summary;
  risk = risk;
  target = value.target;
})
