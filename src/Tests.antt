-- ===== src/Tests.antt =====
-- Runs of the definitions, and the theorems at concrete inputs.
mod Requests
mod Files
mod Documents
mod Texts
mod Markdown
mod Passwords
mod Errors
mod Forms
mod Queries
mod Suites
mod Clients
mod Exchanges
mod Transfers
mod Downloads
mod Processes
mod Runs
mod CommandLine
