-- ===== src/Delivery/Supervisor/Overlap.antt =====
-- InspectTimeouts holds no lock between its test of a record's retry counter and the retry: two inspections that run
-- at once may both test the record before either retries it.
use sourcevcode_orchestrator.Delivery.Supervisor.{Supervisor}
