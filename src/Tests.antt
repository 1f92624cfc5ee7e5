-- ===== src/Tests.antt =====
-- The theorems at concrete inputs, and runs of the model that can be followed in the source.
mod Rules
mod Requests
mod Batches
mod Pages
mod Purchases
mod Tokens
mod Bodies
mod Sessions
mod Settings
mod Views
mod Processes
mod Books
mod Lists
