-- ===== src/Store/SortedSet/StopBefore.antt =====
-- About ranges that stop before the first entry.
