-- ===== src/Route/Health/Tests.antt =====
-- The theorem on the addresses of the health loop at a concrete input.
