-- ===== src/Config/Bounds.antt =====
-- The bounds on what `Config::from_env` of src/config.rs reads.
