-- ===== src/Examples.antt =====
-- The theorems at work on concrete states.
mod Events
mod Frame
mod Pending
mod Recency
mod Runtime
mod Json
mod Session
mod Status
mod Replace
mod Time
mod Web
mod Insights
mod Auth
