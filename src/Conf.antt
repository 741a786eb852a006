-- ===== src/Conf.antt =====
-- conf.c: the configuration file, read through libyaml.
pub mod Yaml
pub mod Pool
pub mod Command
pub mod State
pub mod Parse
pub mod Tree
pub mod Tokens
pub mod Structure
pub mod Post
pub mod Create
pub mod Dump
mod Samples
mod Tests
