-- ===== src/Billing/Repeats.antt =====
-- A webhook that comes again.
