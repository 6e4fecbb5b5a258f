-- ===== src/Tests.antt =====
-- The theorems at concrete inputs: src/asyd with simple functions for the primitives.
mod Toy
mod Pools
mod Frames
mod Requests
mod Admissions
mod Sessions
mod Conversations
mod Reports
mod Starts
mod Systems
mod Agents
mod Whitelists
