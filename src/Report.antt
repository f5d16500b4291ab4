-- ===== src/Report.antt =====
-- What the program says of itself: internal/pulse/pulse.go and internal/httpapi/httpapi.go.
pub mod Pulse
pub mod Totals
pub mod Page
