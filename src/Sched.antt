-- ===== src/Sched.antt =====
-- The scheduler proper: actors that fire, src/fire_check.c, src/actor_create.c and include/actor.h.
pub mod State
pub mod Create
pub mod Graph
pub mod Fire
pub mod Launch
pub mod Check
pub mod Start
pub mod Results
pub mod Deliver
pub mod Recycle
pub mod Done
