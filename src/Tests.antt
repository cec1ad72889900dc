-- ===== src/Tests.antt =====
-- Concrete runs and inputs: each theorem with hypotheses or parameters at one input.
mod Samples
mod Routing
mod Config
mod Process
mod Subscription
mod Storage
mod Backend
mod Files
mod Ui
