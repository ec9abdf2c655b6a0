-- ===== src/Tests/Analytics/Access.antt =====
-- What the account of an adapter may see, at concrete inputs.
