-- ===== src/Protocol/Laws.antt =====
-- How the two classifications of HTTP failures relate to one another and to the client's states.
use risk_opportunity_manager.Prelude.{ℤ, pos, ◌≡◌, ◌≢◌, ◌↔◌, true, arith, eq_of_parts}
use risk_opportunity_manager.Protocol.{
  classify_http_status, classify_http_failure, sync_state_for_failure, SyncState,
}

-- The client and the server classify every HTTP status but 0 alike; 0 is no HTTP status, and the
-- client uses it for a request that got no response.
pub classify_agree :
    (status : ℤ) → status ≢ pos 0 → classify_http_status status ≡ classify_http_failure status
unfolding classify_http_status classify_http_failure
classify_agree status h = ground (arith, eq_of_parts status (pos 0))

-- A failure is retryable exactly when the client's state for it is to wait for the next retry.
pub retryable_iff_retry_wait :
    (status : ℤ)
    → (((classify_http_status status).1 ≡ true)
        ↔ (sync_state_for_failure (classify_http_status status).0 ≡ SyncState.retry_wait))
unfolding classify_http_status sync_state_for_failure
retryable_iff_retry_wait status = ground arith
