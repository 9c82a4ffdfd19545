-- ===== src/Util/Tests.antt =====
-- The defanging of an address with two dots.
