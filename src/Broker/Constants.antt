-- ===== src/Broker/Constants.antt =====
-- apps/broker/src/constants.ts: the limits, in milliseconds, bytes and records, and the scopes.
use tabgrant.Common.{ℕ, ◌*◌, ◌≡◌, ◌↔◌, Bool, true, ◌==◌, arith}

abbrev pub max_message_bytes : ℕ
max_message_bytes = 1048576

abbrev pub max_lease_ttl_ms : ℕ
max_lease_ttl_ms = 10 * 60 * 1000

abbrev pub default_lease_ttl_ms : ℕ
default_lease_ttl_ms = 10 * 60 * 1000

abbrev pub lease_idle_timeout_ms : ℕ
lease_idle_timeout_ms = 2 * 60 * 1000

abbrev pub access_request_ttl_ms : ℕ
access_request_ttl_ms = 5 * 60 * 1000

abbrev pub lease_use_limit : ℕ
lease_use_limit = 250

abbrev pub lease_max_in_flight : ℕ
lease_max_in_flight = 2

abbrev pub lease_commands_per_window : ℕ
lease_commands_per_window = 30

abbrev pub lease_command_window_ms : ℕ
lease_command_window_ms = 60 * 1000

abbrev pub lease_egress_budget_bytes : ℕ
lease_egress_budget_bytes = 1000000

abbrev pub snapshot_max_result_bytes : ℕ
snapshot_max_result_bytes = 256000

abbrev pub access_pending_per_session_limit : ℕ
access_pending_per_session_limit = 8

abbrev pub access_pending_global_limit : ℕ
access_pending_global_limit = 100

abbrev pub access_requests_per_session_window : ℕ
access_requests_per_session_window = 20

abbrev pub access_requests_global_window : ℕ
access_requests_global_window = 120

abbrev pub access_request_rate_window_ms : ℕ
access_request_rate_window_ms = 60 * 1000

abbrev pub access_request_record_limit : ℕ
access_request_record_limit = 512

abbrev pub lease_record_limit : ℕ
lease_record_limit = 200

abbrev pub terminal_record_retention_ms : ℕ
terminal_record_retention_ms = 15 * 60 * 1000

abbrev pub state_maintenance_interval_ms : ℕ
state_maintenance_interval_ms = 30 * 1000

pub data ImplementedScope : Type 0 where
  tab_metadata_read page_a11y_read page_element_inspect page_scroll : ImplementedScope
  page_highlight page_navigate_same_origin data_egress_model : ImplementedScope

abbrev implemented_scope_index : ImplementedScope → ℕ
implemented_scope_index tab_metadata_read = 0
implemented_scope_index page_a11y_read = 1
implemented_scope_index page_element_inspect = 2
implemented_scope_index page_scroll = 3
implemented_scope_index page_highlight = 4
implemented_scope_index page_navigate_same_origin = 5
implemented_scope_index data_egress_model = 6

-- `===` on scopes, which have distinct texts.
abbrev pub same_scope : ImplementedScope → ImplementedScope → Bool
same_scope a b = implemented_scope_index a == implemented_scope_index b

pub same_scope_iff : (a b : ImplementedScope) → (same_scope a b ≡ true) ↔ (a ≡ b)
same_scope_iff a b = ground arith
