-- ===== src/Paging.antt =====
-- Pages of captures: the cursors, and `FindCapturesByLinkPage` and `FindCapturesByPrefixPage` of
-- webshotd/src/crud.cpp.
pub mod Cursor
pub mod Link
pub mod Prefix
pub mod Tests
