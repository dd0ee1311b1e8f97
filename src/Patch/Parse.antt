-- ===== src/Patch/Parse.antt =====
-- src/patch/parse: the parsers of patch names, locators and ranges.
pub mod Parsed
pub mod Winnow
pub mod Name
pub mod Numbers
pub mod Locator
pub mod Offsets
