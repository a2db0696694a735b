-- ===== src/Models.antt =====
-- models/config.go: the data that the other packages share. Numbers that a file may give any value
-- are ℤ; instants are numbers of nanoseconds; maps are association lists; pointers are options.
pub mod Settings
pub mod Services
pub mod Identity
pub mod Grants
