-- ===== src/Examples.antt =====
-- Runs of the models on concrete inputs, to which the theorems of the components apply.
mod Breakers
mod Codes
mod Gateways
mod Urls
mod Services
mod Accounts
mod Pipelines
mod Systems
mod Fixtures
mod Notifications
mod Connections
mod Statistics
mod Tokens
mod Routes
mod Processes
mod Journeys
