-- ===== src/Examples.antt =====
-- The theorems at concrete inputs, and runs of the definitions.
mod Breakers
mod Limiters
mod Commands
mod Policies
mod Incidents
mod Invites
mod Rules
mod Memories
mod Windows
mod Agents
mod Alerts
mod Tagging
mod Uptimes
mod Networks
mod Logins
mod Heartbeats
mod Payments
mod Probes
