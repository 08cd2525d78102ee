-- ===== src/Courses.antt =====
-- The course adapters of courses/.
pub mod TokenPool
