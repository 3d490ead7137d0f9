-- ===== src/Runner.antt =====
-- What the crawler records of a page while Chromium loads it (webshotd/src/crawler/runner.cpp).
pub mod Urls
pub mod State
pub mod Requests
pub mod Tracker
pub mod Resources
pub mod Interception
pub mod Tests
