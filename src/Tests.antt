-- ===== src/Tests.antt =====
-- Runs of the model on the unit tests of the sources, and the properties at concrete
-- inputs.
mod Parsing
mod Assert
mod WgConfRuns
mod Ipv6
mod Sample
mod ValidationRuns
mod RecordingWg
mod SwitchRuns
mod FirewallRuns
mod RouteRuns
mod KeysRuns
mod FakeWireguard
mod ServersRuns
mod TunnelsRuns
mod EditsRuns
mod ConfigRuns
mod CliRuns
mod ServerRuns
mod ProtoRuns
mod World
mod Coding
mod Examples
mod Requests
mod Restarts
mod Json
mod WireRuns
mod StateRuns
mod Machine
mod Promises
mod Tunnels
mod Edges
mod Lives
mod Printing
