-- ===== src/Browser.antt =====
-- The crawler's hold on Chromium: the life of a page, and the client that speaks to it.
pub mod Page
pub mod Cdp
mod Tests
