-- ===== src/Tests.antt =====
-- Runs of the program on small inputs, and a witness of each theorem with hypotheses.
mod Memory
mod Disk
mod Volumes
mod Small
mod Cluster
mod Events
mod Starts
mod Returns
mod Nodes
mod Places
mod EndToEnd
mod Configs
mod Buckets
mod Replication
