-- ===== src/Tests/Header.antt =====
-- The header of an answer, at a request of a user with a grant.
