-- ===== src/Startup/Outcome.antt =====
-- How the process ends, and with which exit code (src/main.rs).
use rhel9_app_micro.Config.{Config}
use rhel9_app_micro.Platform.{Platform}
