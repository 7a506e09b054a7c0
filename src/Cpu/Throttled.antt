-- ===== src/Cpu/Throttled.antt =====
-- The throttle counts that `updateThermalThrottle` sends.
use infra_pulse.Base.{nat_eq}
