-- ===== src/Tests.antt =====
-- Concrete inputs: tests of the definitions and instances of the theorems.
mod MatchWorld
mod Matches
mod Proposals
mod Pools
mod RideWorld
mod Rides
mod Beginnings
mod Messages
mod Locks
mod LocateWorld
mod Locations
mod UserWorld
mod Accounts
mod Sockets
mod Admission
mod Servers
mod Pickups
mod Probes
mod Gateways
mod Requests
mod Queues
mod Texts
