-- ===== src/Examples.antt =====
-- Concrete runs of the theorems, on one tenant with one job.
mod Data
mod Jobs
mod Keys
mod Bodies
mod Submissions
mod Sources
mod Uploads
mod Authority
mod Deliveries
mod Policies
mod Texts
