-- ===== src/Tests.antt =====
-- Concrete requests, and the theorems at them.
mod Fixtures
mod Hooks
mod Stores
mod DynamoStores
mod Renewals
mod Authorizers
mod Certificates
mod Requests
mod Proofs
mod Tls
mod ServingTask
mod RootsResponses
mod ServedRoots
