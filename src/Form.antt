-- ===== src/Form.antt =====
-- web/admin/src/components/Form/src/hooks: the layout of a form.
pub mod Advanced
pub mod Events
pub mod Values
pub mod Tests
