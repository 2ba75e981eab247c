-- ===== src/Publication.antt =====
-- Publication of a review to the platform it came from (domain/publication,
-- application/publication_service.py and the publication tables of application/persistence.py).
pub mod Models
pub mod Aggregate
pub mod State
pub mod Store
pub mod Items
pub mod Service
pub mod Sent
pub mod Quiet
pub mod Requests
pub mod Publish
pub mod Locked
pub mod Fencing
mod Tests
