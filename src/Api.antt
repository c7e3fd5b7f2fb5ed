-- ===== src/Api.antt =====
-- The data of the program: the custom resource of api/v1/kataconfig_types.go, the objects of the
-- cluster that the controllers and the daemon read and write, and the errors.
pub mod Kata
pub mod Objects
pub mod Errors
