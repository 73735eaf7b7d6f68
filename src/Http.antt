-- ===== src/Http.antt =====
-- Requests and their retries: src/pmkt/_http.py and the policy of src/pmkt/runtime.py.
pub mod Policy
pub mod Request
pub mod Attempts
pub mod Returns
pub mod Delays
pub mod Expiry
