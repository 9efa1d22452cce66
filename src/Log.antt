-- ===== src/Log.antt =====
-- src/log.h and src/log.cc: levels, formatters, appenders, loggers and their registry.
pub mod Level
pub mod Format
pub mod Appender
pub mod Logger
pub mod Manager
pub mod Setup
mod Tests
