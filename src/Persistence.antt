-- ===== src/Persistence.antt =====
-- persistence: the databases. Only MySQL has code here.
mod Mysql
mod Tests
