-- ===== src/Policy/Tests.antt =====
-- The theorem on the mode policy at concrete modes.
