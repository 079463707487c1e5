-- ===== src/Phone.antt =====
-- app/services/phone_operations.py: the life of a phone number that is rented for one code. Each
-- operation is one session.
pub mod Codes
pub mod Activations
pub mod Operations
mod Requests
mod Keys
mod Moves
mod Lifecycle
mod Orders
mod Reconcile
mod Samples
