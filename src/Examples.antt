-- ===== src/Examples.antt =====
-- Runs of the definitions on small inputs, and instances of the theorems.
mod Values
mod Conditions
mod Stores
mod Sessions
mod Calls
mod Runs
mod Messages
mod Commands
mod RpcCalls
mod Configs
mod Services
mod Stages
mod Systems
mod Drivers
