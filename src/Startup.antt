-- ===== src/Startup.antt =====
-- cmd/main.go, api/v1alpha1/groupversion_info.go and SetupWithManager of
-- internal/controller/wordpress_controller.go: how the process starts.
pub mod Library
pub mod Options
pub mod Manager
pub mod Parsing
pub mod Servers
