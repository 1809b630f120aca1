-- ===== src/Parse/Members.antt =====
-- What t_struct::append promises of the member lists.
pub mod Sorted
pub mod WellFormed
pub mod Union
