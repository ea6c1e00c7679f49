-- ===== src/Tests.antt =====
-- Concrete runs of the modelled code, and each theorem at a concrete input.
mod Registry
mod Framing
mod Identities
mod Transport
mod Codec
mod Issuing
mod Tls
mod Exchange
mod Negotiation
mod Refusals
mod Reading
mod Handover
mod Inspecting
mod Chains
mod Commands
