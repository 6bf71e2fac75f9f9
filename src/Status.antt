-- ===== src/Status.antt =====
-- di_status_tools.py, di_status_assessment.py and di_status_rendering.py: status queries of one
-- instrumentation.
pub mod Timestamp
pub mod Assessment
pub mod Rendering
pub mod History
pub mod Consolidated
