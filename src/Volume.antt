-- ===== src/Volume.antt =====
-- volume/volume.go and volume/ttl.go: a volume on this node. The operations stand in the modules
-- below; each takes what it reads from outside (clocks, fresh identifiers, outcomes) as `Inputs`.
pub mod Defs
pub mod Create
pub mod Delete
pub mod Reads
pub mod Replicas
pub mod Reset
pub mod Invariant
pub mod Outcomes
pub mod RoundTrip
pub mod Contents
pub mod ReadBack
pub mod Leftover
pub mod Start
pub mod Liveness
