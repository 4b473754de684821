-- ===== src/Items.antt =====
-- Tags and tasks on items: src/services/item_refs.py and src/services/item_links.py.
pub mod Refs
pub mod Resolve
pub mod Links
pub mod Carry
pub mod Inherit
pub mod Flat
