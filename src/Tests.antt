-- ===== src/Tests.antt =====
-- Runs on concrete inputs, and the properties applied to them.
mod Values
mod Sessions
mod Workspaces
mod Mutations
mod Diffs
mod Commands
mod Lifecycles
mod Resolvers
mod Paths
mod Executors
mod ExecRuns
