-- ===== src/Auth.antt =====
-- web/admin/src: who may go where. router/guard/permissionGuard.ts with the action of
-- store/modules/permission.ts that it awaits, and `hasPermission` of hooks/web/usePermission.ts.
pub mod Guard
pub mod Permission
pub mod Tests
