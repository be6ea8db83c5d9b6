-- ===== src/Db.antt =====
-- infrastructure/db: what the repositories ask of a SQLAlchemy session. SQLAlchemy and the database
-- are not part of the repository, so a session is a parameter, and what they document is a named
-- hypothesis.
pub mod Rows
pub mod Table
pub mod ListTable
pub mod Session
